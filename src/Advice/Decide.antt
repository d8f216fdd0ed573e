-- ===== src/Advice/Decide.antt =====
-- What to do next: `decide` of backend/app/engine/next_action.py.
pub mod Settled
use veyra_demo.Advice.Assess.{Assessed, Run, evidence_lines, label, owner, status_of}
use veyra_demo.Advice.Compare.{Row}
use veyra_demo.Ledger.Scores.{
  Score, ahead, counted, exceeds, is_part, part_scores, ranked_parts, remote_parts,
}
use veyra_demo.Ledger.SiteResults.{SiteResult}
use veyra_demo.Prelude.{
  Bool, List, Option, String, [], any, concat_map, elem, false, if◌then◌else◌, keep, length, ltb,
  map, none, not, some, take, true, ◌&&◌, ◌++◌, ◌==◌, ◌||◌, ◌∷◌,
}
use veyra_demo.Python.Text.{is_empty, is_substring, join, sorted, strip, ◌&◌}
use veyra_demo.Python.Value.{Value, get, item, null, str}

pub data Decision : Type 0 where
  fix_remotely_first dispatch_candidate hold_for_evidence : Decision

-- `PHYSICAL_PARTS`
abbrev physical_parts : List String
physical_parts = "vehicle_interface" ∷ "vehicle_body" ∷ []

-- `REMOTE_FIX`, whose keys are `REMOTE_PARTS`
abbrev remote_fix : String → String
remote_fix d =
    if d == "network"
    then "Change the link remotely (for example pin the cell or the access point) and watch the next shift"
    else "Restart or roll back the control software remotely and watch the next shift"

-- A check that was asked for, and whether a person approved it.
pub record Proposed : Type 0 where
  pub row : Row
  pub approved : Bool

abbrev check_id : Proposed → String
check_id p = p.row.check.check.id

abbrev pub is_counted : String × SiteResult → Bool
is_counted r = elim (counted r) [ none ↦ false | some _ ↦ true ]

-- `candidates`
abbrev pub considered : Assessed → List String
considered a = elim a.cannot_tell_apart [
  | [] ↦ map (λ n. n.part) a.supported
  | n ∷ ns ↦ map (λ m. m.part) (n ∷ ns)
]

-- whether a result that counts supports a part
abbrev pub supports_part : String → String × SiteResult → Bool
supports_part d r = elim (counted r) [ none ↦ false | some o ↦ elem d o.supports ]

-- `pointed`
abbrev pub pointed : List String → List (String × SiteResult) → List String
pointed parts results = keep (λ d. any (supports_part d) results) parts

-- `margin >= 2`, where a part that is alone leads by its score
abbrev pub zero_score : Score
zero_score = record { gained = 0; lost = 0 }

abbrev pub lead_by_two : List (String × Score) → Option String
lead_by_two [] = none
lead_by_two (r ∷ []) = if exceeds 2 r.1 zero_score then some r.0 else none
lead_by_two (r ∷ q ∷ rest) = ahead 2 (r ∷ q ∷ rest)

-- the scores, sorted
abbrev pub ranked : Run → Assessed → List (String × SiteResult) → List (String × Score)
ranked run a results = ranked_parts (part_scores (status_of run) (considered a) results)

-- the part that is acted on, if any: `lead and margin >= 2 and not disagree`
abbrev pub unless_disagree : Bool → Option String → Option String
unless_disagree disagree none = none
unless_disagree disagree (some d) = if disagree || is_empty d then none else some d

unfoldable pub acted_on : Run → Assessed → List (String × SiteResult) → Option String
unfolding part_scores
acted_on run a results =
    unless_disagree (ltb 1 (length (pointed (considered a) results)))
      (lead_by_two (ranked run a results))

abbrev pub decision_on : Option String → Decision
decision_on none = hold_for_evidence
decision_on (some d) = if elem d remote_parts then fix_remotely_first else dispatch_candidate

abbrev pending_of : List Proposed → List (String × SiteResult) → List Proposed
pending_of asked results =
    keep (λ p. not (elem (check_id p) (map (λ r. r.0) (keep is_counted results)))) asked

-- `why`: what the data shows of each candidate, then each result that counts; a text with its source
abbrev text_or : String → Value → String
text_or other v = elim v [ null ↦ other | str s ↦ s | _ ↦ "" ]

abbrev result_reason : String × SiteResult → List (String × String)
result_reason (i, r) = elim (counted (i, r)) [
  | none ↦ []
  | some o ↦
      (
        strip (
            "Site result for "
            & (i & (": " & (o.label & (". " & text_or "" (get "observations" r.payload)))))),
        "ledger "
            & (r.entry_id
                & (" · "
                    & (text_or "site" (get "performer" r.payload)
                        & (if r.this_run then "" else " · from an earlier investigation")))),
      )
      ∷ []
]

abbrev part_reason : Run → String → List (String × String)
part_reason run d =
    map (λ line. (label run d & (": " & line), "investigation run " & run.id))
      (evidence_lines 1 run d)

unfoldable pub reasons : Run → Assessed → List (String × SiteResult) → List (String × String)
reasons run a results =
    concat_map (part_reason run) (considered a) ++ concat_map result_reason results

-- `can`: a text and who does it
unfoldable pub can_do_now : Run → Option String → List Proposed → List (String × String)
can_do_now run none pending =
    map
      (λ p. (
        "Get the result of: " & p.row.check.check.question,
        if is_empty p.row.check.check.who then "Site" else p.row.check.check.who,
      ))
      pending
can_do_now run (some d) pending =
    if elem d remote_parts
    then (remote_fix d, owner run d)
      ∷ ("Keep a technician on standby only if the fix does not hold", "Service lead")
      ∷ []
    else ("Prepare a visit by " & owner run d, "Service lead")
      ∷ map (λ item. ("Bring: " & item, "Technician")) (take 3 run.preparation)

-- `cannot`: a text and why; the first of them depends on the decision
abbrev first_refusal : Run → Assessed → Bool → Option String → List (String × String)
first_refusal run a disagree none =
    (
      "Choose between " & join " and " (map (label run) (considered a)),
      if disagree then "Site results point to both." else "The data does not separate them yet.",
    )
    ∷ []
first_refusal run a disagree (some d) =
    if elem d remote_parts
    then (
      "Send a technician to the machine",
      "The evidence points to " & (label run d & ", which can be changed remotely."),
    )
      ∷ []
    else []

abbrev technician : Run → String → String → String × String
technician run d why = ("Send a " & (owner run d & " technician"), why)

-- a part that needs hands on the machine and does not lead
abbrev is_other_physical : Option String → String → Bool
is_other_physical lead d = elem d physical_parts && not (is_part lead d)

unfoldable pub cannot_do_yet :
    Run → Assessed → Bool → Option String → Option String → List (String × String)
cannot_do_yet run a disagree acted lead =
    first_refusal run a disagree acted
    ++ ("Name a failed part", "No component fault has been confirmed by inspection or a fix.")
      ∷ map (λ d. technician run d ("Nothing points to " & (label run d & ".")))
          (keep (is_other_physical lead) (considered a))
    ++ map (λ n. technician run n.part (n.label & ": no delay where it was measured."))
        (take 1 (keep (λ n. is_other_physical lead n.part) a.less_likely))

-- `blockers`
abbrev blocking : List String
blocking = "not_recorded" ∷ "authorization_required" ∷ "reported_only" ∷ []

abbrev open_blockers : Run → List String → List String
open_blockers run settled = take 3 (
    map (λ b. b.0)
      (keep (λ b. elem b.1 blocking && not (any (λ i. is_substring i b.0) settled)) run.blockers))

-- `headline`
abbrev headline : Run → Bool → Option String → String
headline run disagree none =
    if disagree
    then "The site results point to different parts. Don't send anyone yet; look at both results together."
    else "Can't tell yet. Get the site result before deciding."
headline run disagree (some d) =
    "Points to "
    & (label run d
        & (if elem d remote_parts
            then ". Try the remote fix first; no one needs to travel yet."
            else ". A visit is likely needed; prepare it."))

-- What `decide` returns; a score stands with the label of its part.
pub record NextReport : Type 0 where
  pub status : Decision
  pub headline : String
  pub leading : Option String
  pub scores : List (String × Score)
  pub can_do_now : List (String × String)
  pub cannot_do_yet : List (String × String)
  pub why : List (String × String)
  pub still_unknown : List String
  pub checks_used : List String
  pub checks_pending : List String

abbrev first_part : List (String × Score) → Option String
first_part [] = none
first_part (r ∷ rs) = some r.0

-- `decide(run, assessment, proposed, results)`, with the results that `site_results` returned
unfoldable pub decide : Run → Assessed → List Proposed → List (String × SiteResult) → NextReport
unfolding acted_on reasons can_do_now cannot_do_yet
decide run a asked results =
    let acted = acted_on run a results in
    let disagree = ltb 1 (length (pointed (considered a) results)) in
    let scores = ranked run a results in
    let pending = pending_of asked results in
    let used = map (λ r. r.0) (keep is_counted results) in
    let settled = used ++ map check_id (keep (λ p. p.approved) asked) in
    record {
      status = decision_on acted;
      headline = headline run disagree acted;
      leading = elim acted [ none ↦ none | some d ↦ some (label run d) ];
      scores = map (λ r. (label run r.0, r.1)) scores;
      can_do_now = can_do_now run acted pending;
      cannot_do_yet = cannot_do_yet run a disagree acted (first_part scores);
      why = reasons run a results;
      still_unknown = map (λ p. p.row.check.check.question) pending ++ open_blockers run settled;
      checks_used = sorted used;
      checks_pending = map check_id pending;
    }
