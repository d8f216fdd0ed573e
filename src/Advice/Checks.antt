-- ===== src/Advice/Checks.antt =====
-- Which checks may be recommended, and in which order: backend/app/engine/checks.py.
-- The states of `_availability`.
use veyra_demo.Advice.Catalog.{CatalogCheck}
use veyra_demo.Engine.Outcomes.{find_key}
use veyra_demo.Prelude.{
  Bool, List, Option, String, [], elem, false, if◌then◌else◌, is_nil, keep, length, ltb, nat_eq,
  none, not, some, take, true, ℕ, ◌&&◌, ◌==◌, ◌∷◌,
}
use veyra_demo.Python.Text.{is_empty, join, ◌&◌}

pub data Availability : Type 0 where
  answered_in_run already_in_case not_applicable needs_data needs_context : Availability
  needs_authorization ready_automatic ready_remote onsite_required : Availability

-- A dictionary `{"state": …, "detail": …}`.
pub record Available : Type 0 where
  pub state : Availability
  pub detail : String

-- What settled a similar earlier case; its similarity in thousandths.
pub record Precedent : Type 0 where
  pub case_id : String
  pub title : String
  pub similarity : ℕ

-- The dictionary `facts`. A check that was performed before stands with the entry that says so.
pub record Facts : Type 0 where
  pub signals_present : List String
  pub answered : List (String × String)
  pub sources_in_case : List (String × List String)
  pub interventions_total : ℕ
  pub interventions_unreviewed : List String
  pub brief_events_scanned : Bool
  pub brief_events_in_window : ℕ
  pub io_needs_context : List String
  pub remote_access : Option String
  pub previously_performed : List (String × String)
  pub precedent_checks : List (String × Precedent)
  pub transport_cross_clock : Bool
  pub network_crossing : Bool
  pub endpoints_confirmed : Bool
  pub control_events : Bool
  pub context_gaps : List String
  pub vehicle_departures : List String
  pub vehicle_delay : Bool
  pub reference_status : Option String
  pub observed_domains : List String
  pub reproduction_attempts : ℕ
  pub rows_in_window : Bool

-- What a machine profile says about one check.
pub record Override : Type 0 where
  pub question : Option String
  pub why : Option String
  pub who : Option String
  pub tools : Option (List String)
  pub applicable : Option Bool

-- A machine profile: its name, the labels of its domains and its overrides.
pub record MachineProfile : Type 0 where
  pub name : String
  pub labels : List (String × String)
  pub overrides : List (String × Override)

-- `FETCHES_SOURCE`
abbrev pub fetches_source : String → Option String
fetches_source check_id =
    if check_id == "CHK-CONTROLLER-LOGS" then some "flight_controller_log" else none

abbrev pub available : Availability → String → Available
available s d = record { state = s; detail = d }

-- `files[:2]`, and `…` where there are more
abbrev pub source_detail : List String → String
source_detail files =
    "Already in this case ("
    & (join ", " (take 2 files)
        & ((if ltb 2 (length files) then "…" else "") & "); read it instead of asking the site"))

-- the files of the source that a check fetches, where the case has such files
abbrev pub source_files : String → Facts → Option (List String)
source_files check_id f = elim (fetches_source check_id) [
  | none ↦ none
  | some source ↦ elim (find_key source f.sources_in_case) [
    | none ↦ none
    | some [] ↦ none
    | some (x ∷ xs) ↦ some (x ∷ xs)
  ]
]

abbrev pub missing_signals : CatalogCheck → Facts → List String
missing_signals c f = keep (λ s. not (elem s f.signals_present)) c.requires_signals

unfoldable pub automatic_availability : CatalogCheck → Facts → Available
automatic_availability c f =
    if not (is_nil (missing_signals c f))
    then available needs_data ("Missing records: " & join ", " (missing_signals c f))
    else if c.id == "CHK-BRIEF-EVENTS" && not f.brief_events_scanned
    then available needs_data "No signal sampled at 5 Hz or faster"
    else if c.id == "CHK-IO-BASELINE" && not (is_nil f.io_needs_context)
    then available needs_context
        ("Context not confirmed comparable between windows: " & join ", " f.io_needs_context)
    else available ready_automatic "Runs read-only on imported records"

abbrev pub is_authorized : Facts → Bool
is_authorized f = elim f.remote_access [ none ↦ false | some a ↦ a == "read_only_authorized" ]

-- `facts['remote_access'] or 'not recorded'`
abbrev access_text : Option String → String
access_text none = "not recorded"
access_text (some a) = if is_empty a then "not recorded" else a

unfoldable pub manual_availability : CatalogCheck → Facts → Available
manual_availability c f =
    if c.mode == "onsite"
    then available onsite_required "Requires travel and site approval"
    else if c.requires_authorization && not (is_authorized f)
    then available needs_authorization (
        "Remote access is '"
        & (access_text f.remote_access & "'; read-only authorization must be confirmed"))
    else available ready_remote "Can be done remotely by a person"

-- the rest of `_availability`, from the files of the source that the check fetches
abbrev pub from_sources : CatalogCheck → Facts → Option (List String) → Available
from_sources c f (some files) = available already_in_case (source_detail files)
from_sources c f none =
    if c.id == "CHK-INTERVENTION-REVIEW" && nat_eq f.interventions_total 0
    then available not_applicable "No operator intervention recorded for this case"
    else if c.mode == "automatic_read_only"
    then automatic_availability c f
    else manual_availability c f

abbrev pub from_answer : CatalogCheck → Facts → Option String → Available
from_answer c f (some detail) = available answered_in_run detail
from_answer c f none = from_sources c f (source_files c.id f)

-- `_availability(check, facts)`
unfoldable pub availability_of : CatalogCheck → Facts → Available
unfolding automatic_availability manual_availability
availability_of c f = from_answer c f (find_key c.id f.answered)

abbrev pub state_text : Availability → String
state_text answered_in_run = "answered_in_run"
state_text already_in_case = "already_in_case"
state_text not_applicable = "not_applicable"
state_text needs_data = "needs_data"
state_text needs_context = "needs_context"
state_text needs_authorization = "needs_authorization"
state_text ready_automatic = "ready_automatic"
state_text ready_remote = "ready_remote"
state_text onsite_required = "onsite_required"

-- The dictionary that `eligibility` returns.
pub record Eligibility : Type 0 where
  pub eligible : Bool
  pub reason : Option String
  pub prerequisites : List String

-- `NOT_ELIGIBLE_STATES`
abbrev pub not_eligible : Availability → Bool
not_eligible answered_in_run = true
not_eligible already_in_case = true
not_eligible not_applicable = true
not_eligible needs_data = true
not_eligible needs_context = true
not_eligible _ = false

-- `PREREQUISITE`
abbrev pub prerequisite : Availability → List String
prerequisite needs_authorization = "Read-only remote access must be authorized first" ∷ []
prerequisite onsite_required = "Travel and site approval" ∷ []
prerequisite _ = []

-- `eligibility(check)` of a check that does not carry one, as `rank` calls it
unfoldable pub eligibility : Available → Option String → Eligibility
eligibility a performed = elim performed [
  | some _ ↦ record { eligible = false; reason = some "Already performed"; prerequisites = [] }
  | none ↦
      if not_eligible a.state
      then record {
        eligible = false;
        reason = some (if is_empty a.detail then state_text a.state else a.detail);
        prerequisites = [];
      }
      else record { eligible = true; reason = none; prerequisites = prerequisite a.state }
]
