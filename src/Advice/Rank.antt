-- ===== src/Advice/Rank.antt =====
-- The order of the checks: `_triggered`, `_for_case`, `rank` and `_explain` of backend/app/engine/checks.py.
pub mod Order
pub mod Eligible
use veyra_demo.Advice.Catalog.{CatalogCheck, catalog}
use veyra_demo.Advice.Checks.{
  Availability, Available, Eligibility, Facts, MachineProfile, Override, Precedent, already_in_case,
  answered_in_run, availability_of, available, eligibility, needs_authorization, needs_context,
  needs_data, not_applicable, onsite_required, ready_automatic, ready_remote, state_text,
}
use veyra_demo.Engine.Outcomes.{find_key}
use veyra_demo.Prelude.{
  Bool, List, Option, String, [], elem, false, if◌then◌else◌, is_nil, keep, length, map, nat_eq,
  none, not, or_else, some, take, true, ℕ, ◌&&◌, ◌==◌, ◌||◌, ◌∷◌,
}
use veyra_demo.Prelude.Sort.{lex_lt, sort_by}
use veyra_demo.Python.Text.{join, number_text, spaced, text_le, ◌&◌}

abbrev pub text_or_empty : Bool → String → Option String
text_or_empty test s = if test then some s else none

-- the trigger of one of the rules below, or the next rule
abbrev pub or_trigger : Option String → Option String → Option String
or_trigger (some s) _ = some s
or_trigger none t = t

abbrev stopped : List String → String
stopped axes = "Stopped following its commands: " & join ", " (take 4 axes)

abbrev reference_is : String → Facts → Bool
reference_is s f = elim f.reference_status [ none ↦ false | some r ↦ r == s ]

abbrev domain_name : List (String × String) → String → String
domain_name labels d = elim (find_key d labels) [ none ↦ spaced d | some l ↦ l ]

-- the first rules of `_triggered`, for one check id
unfoldable pub trigger_of_logs : String → Facts → Option String
trigger_of_logs i f =
    or_trigger
      (text_or_empty (i == "CHK-CLOCK-OFFSET" && f.transport_cross_clock)
        "Transport delay is measured only relative to an assumed-stable offset between unsynchronized clocks; bound and check the offset")
      (or_trigger
        (text_or_empty (i == "CHK-PROBE-PATH" && f.network_crossing && not f.endpoints_confirmed)
          "Probe-path threshold crossing while measurement endpoints are not confirmed")
        (or_trigger
          (text_or_empty (i == "CHK-NETWORK-LOGS" && f.network_crossing)
            "Network probe crossing inside the symptom window")
          (or_trigger
            (text_or_empty (i == "CHK-CONTROLLER-LOGS" && f.control_events)
              "Controller events, heartbeat gaps, resets or fault codes near the symptom window")
            (or_trigger
              (text_or_empty (i == "CHK-CONFIRM-CONTEXT" && not (is_nil f.context_gaps))
                ("Unconfirmed context blocks comparisons: " & join ", " (take 6 f.context_gaps)))
              (or_trigger
                (text_or_empty (i == "CHK-DRIVE-LOGS" && not (is_nil f.vehicle_departures))
                  (stopped f.vehicle_departures))
                (or_trigger
                  (text_or_empty (i == "CHK-ONSITE-ACTUATOR" && not (is_nil f.vehicle_departures))
                    (stopped f.vehicle_departures))
                  (text_or_empty (i == "CHK-ONSITE-ACTUATOR" && f.vehicle_delay)
                    "Delay or change observed on the vehicle side")))))))

-- `_triggered(check_id, facts, names)`; `none` where it returns ""
unfoldable pub triggered : String → Facts → List (String × String) → Option String
unfolding trigger_of_logs
triggered i f labels = or_trigger (trigger_of_logs i f) (
    or_trigger
      (text_or_empty (i == "CHK-IO-BASELINE" && not (is_nil f.io_needs_context)) (
        "Input–response models exist but context is unconfirmed: "
        & join ", " (take 6 f.io_needs_context)))
      (or_trigger
        (text_or_empty
          (i == "CHK-DECLARE-REFERENCE"
            && not (reference_is "declared" f || reference_is "explicit" f))
          ("Comparisons currently use "
            & (if reference_is "assumed_default" f
                then "an assumed reference (data before the symptom)"
                else "no reference")))
        (or_trigger
          (text_or_empty (i == "CHK-INTERVENTION-REVIEW" && not (is_nil f.interventions_unreviewed))
            (number_text (length f.interventions_unreviewed)
              & " operator intervention(s) not yet reviewed"))
          (or_trigger
            (text_or_empty
              (i == "CHK-REPRODUCE"
                && not (is_nil f.observed_domains)
                && nat_eq f.reproduction_attempts 0)
              ("Evidence points at "
                & (join ", " (map (domain_name labels) f.observed_domains)
                    & "; no reproduction attempt recorded")))
            (or_trigger
              (text_or_empty (i == "CHK-BRIEF-EVENTS" && not (nat_eq f.brief_events_in_window 0)) (
                number_text f.brief_events_in_window & " brief event(s) inside the symptom window"))
              (or_trigger
                (text_or_empty (i == "CHK-SOURCE-ROWS" && f.rows_in_window)
                  "Records exist inside the symptom window")
                (text_or_empty
                  ((i == "CHK-CMD-CHAIN" || i == "CHK-IO-BASELINE")
                    && elem i (map (λ r. r.0) f.answered))
                  "Computed in this run")))))))

-- the first two rewordings of `_for_case`
unfoldable pub reword : CatalogCheck → Facts → CatalogCheck
reword c f =
    if c.id == "CHK-CONTROLLER-LOGS" && not f.control_events
    then record c {
      question = "Retrieve controller mode and event logs, if available, around the onset";
      why =
          "No controller events, resets, fault codes or heartbeats are in the imported files. A failsafe, mode change or output override at the onset would only show in the controller's own logs.";
    }
    else if c.id == "CHK-DRIVE-LOGS" && not (is_nil f.vehicle_departures)
    then record c {
      question =
          "Retrieve the drive log for "
          & (join ", " (take 3 f.vehicle_departures)
              & " (error register, temperature, encoder status) around the onset");
    }
    else c

abbrev pub override_of : String → Option MachineProfile → Option Override
override_of i none = none
override_of i (some p) = find_key i p.overrides

abbrev pub overridden : Option Override → CatalogCheck → CatalogCheck
overridden none c = c
overridden (some o) c = record c {
  question = or_else c.question o.question;
  why = or_else c.why o.why;
  who = or_else c.who o.who;
  tools = or_else c.tools o.tools;
}

-- `_for_case(check, facts, profile)`, without the flag
unfoldable pub for_case : CatalogCheck → Facts → Option MachineProfile → CatalogCheck
unfolding reword
for_case c f profile = overridden (override_of c.id profile) (reword c f)

-- `check["applicable_to_machine"]`
abbrev pub is_applicable : String → Option MachineProfile → Bool
is_applicable i profile = elim (override_of i profile) [
  | none ↦ true
  | some o ↦ or_else true o.applicable
]

abbrev profile_name : Option MachineProfile → String
profile_name none = "this machine type"
profile_name (some p) = p.name

abbrev profile_labels : Option MachineProfile → List (String × String)
profile_labels none = []
profile_labels (some p) = p.labels

-- `AVAILABILITY_ORDER.get(state, 5)`
abbrev pub availability_order : Availability → ℕ
availability_order ready_automatic = 0
availability_order ready_remote = 1
availability_order needs_context = 2
availability_order needs_data = 3
availability_order needs_authorization = 3
availability_order onsite_required = 4
availability_order already_in_case = 6
availability_order not_applicable = 6
availability_order answered_in_run = 5

-- `DISRUPTION_ORDER[disruption]`, of the three words that the catalog has
abbrev pub disruption_order : String → ℕ
disruption_order s = if s == "none" then 0 else if s == "low" then 1 else 2

abbrev is_done : Availability → Bool
is_done answered_in_run = true
is_done already_in_case = true
is_done not_applicable = true
is_done _ = false

-- One ranked check. `open_domains` is the number that the key takes with a minus sign.
pub record RankedCheck : Type 0 where
  pub check : CatalogCheck
  pub availability : Available
  pub trigger : Option String
  pub eligibility_now : Eligibility
  pub informs : List String
  pub performed : Option String
  pub precedent : Option Precedent
  pub objective_match : Bool
  pub already_answered : Bool
  pub is_triggered : Bool

-- `OPEN_STATUSES`
abbrev pub open_statuses : List String
open_statuses = "not_observed" ∷ "anomaly_observed" ∷ "delay_observed" ∷ []

abbrev is_open : List (String × String) → String → Bool
is_open part_statuses d = elim (find_key d part_statuses) [
  | none ↦ false
  | some s ↦ elem s open_statuses
]

abbrev pub with_precedent : Option Precedent → Option String → (ℕ → String) → Option String
with_precedent none t percent = t
with_precedent (some p) t percent = some (
    "Settled a similar earlier case: "
    & (p.title
        & (" (similarity "
            & (percent p.similarity & (")" & elim t [ none ↦ "" | some s ↦ "; " & s ])))))

-- One round of the loop in `rank`, from the statuses of the domains. `show` is the format `:g`.
unfoldable pub row_of :
    (ℕ → String)
    → List (String × String)
    → Facts
    → String
    → Option MachineProfile
    → CatalogCheck
    → RankedCheck
unfolding availability_of triggered for_case eligibility
row_of show part_statuses f goal profile base =
    let c = for_case base f profile in
    let applies = is_applicable base.id profile in
    let found =
      if applies
      then availability_of c f
      else available not_applicable ("Not used for " & profile_name profile) in
    let p = if applies then find_key base.id f.precedent_checks else none in
    let t = with_precedent p (triggered base.id f (profile_labels profile)) show in
    let done = find_key base.id f.previously_performed in
    record {
      check = c;
      availability = found;
      trigger = t;
      eligibility_now = eligibility found done;
      informs = keep (is_open part_statuses) c.domains;
      performed = done;
      precedent = p;
      objective_match = c.objective == goal;
      already_answered = is_done found.state || elim done [ none ↦ false | some _ ↦ true ];
      is_triggered = elim t [ none ↦ false | some _ ↦ true ];
    }

abbrev pub flag : Bool → ℕ
flag b = if b then 0 else 1

-- `key`, with the number of open domains, which counts downwards, apart
abbrev pub key_before : RankedCheck → List ℕ
key_before r =
    flag r.objective_match
    ∷ flag (not r.already_answered)
    ∷ flag (elim r.precedent [ none ↦ false | some _ ↦ true ])
    ∷ flag r.is_triggered
    ∷ availability_order r.availability.state
    ∷ []

-- `(a["_key"], a["check_id"]) < (b["_key"], b["check_id"])`
unfoldable pub ranks_before : RankedCheck → RankedCheck → Bool
ranks_before a b = lex_lt (key_before a) (key_before b) (
    lex_lt (length b.informs ∷ disruption_order a.check.disruption ∷ [])
      (length a.informs ∷ disruption_order b.check.disruption ∷ [])
      (not (text_le b.check.id a.check.id)))

-- `rank(domains, facts, goal, profile)`; the position in the list is the rank
unfoldable pub rank :
    (ℕ → String)
    → List (String × String)
    → Facts
    → String
    → Option MachineProfile
    → List RankedCheck
unfolding row_of ranks_before
rank show part_statuses f goal profile =
    sort_by ranks_before (map (row_of show part_statuses f goal profile) catalog)

-- `_explain(check)`
unfoldable pub explain : RankedCheck → String
explain r = join "; " (
    (if r.objective_match then "matches objective" else "different objective")
    ∷ (if r.already_answered then "already answered/performed" else "not yet answered")
    ∷ elim r.trigger [ none ↦ "generic (no current trigger)" | some t ↦ "triggered: " & t ]
    ∷ ("availability: " & spaced (state_text r.availability.state))
    ∷ ("informs " & (number_text (length r.informs) & " open domain(s)"))
    ∷ ("disruption: " & r.check.disruption)
    ∷ [])
