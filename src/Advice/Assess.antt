-- ===== src/Advice/Assess.antt =====
-- Which parts the data cannot tell apart: `assess` of backend/app/engine/next_action.py.
pub mod Kept
use veyra_demo.Advice.Board.{Assessment, BoardRow, Observation, is_flagged, is_ruled_out}
use veyra_demo.Advice.Rank.{RankedCheck}
use veyra_demo.Engine.Outcomes.{find_key}
use veyra_demo.Ledger.Scores.{evidence_statuses}
use veyra_demo.Prelude.{
  Bool, List, Option, String, [], any, elem, every, false, if◌then◌else◌, is_nil, keep, last?, leb,
  length, map, none, not, some, take, true, ℕ, ◌&&◌, ◌++◌, ◌==◌, ◌∷◌,
}
use veyra_demo.Prelude.Sort.{sort_by}
use veyra_demo.Python.Text.{is_empty, number_text, spaced, ◌&◌}

-- One axis of `run["findings"]["tracking"]`.
pub record Axis : Type 0 where
  pub axis : String
  pub pair : String
  pub status : String

-- What the next action reads of an investigation run. Its board is what `hypothesis_board` returned.
pub record Run : Type 0 where
  pub id : String
  pub parts : List (String × Assessment)
  pub labels : List (String × String)
  pub owners : List (String × String)
  pub axes : List Axis
  pub board : List BoardRow
  pub signals : List String
  pub checks : List RankedCheck
  pub preparation : List String
  pub blockers : List (String × String)

-- `_label(run, domain)`
abbrev pub label : Run → String → String
label run d = elim (find_key d run.labels) [
  | none ↦ spaced d
  | some l ↦ if is_empty l then spaced d else l
]

-- `_owner(run, domain)`
abbrev pub owner : Run → String → String
owner run d = elim (find_key d run.owners) [
  | none ↦ label run d
  | some o ↦ if is_empty o then label run d else o
]

abbrev observations_of : Run → String → List Observation
observations_of run d = elim (find_key d run.parts) [ none ↦ [] | some a ↦ a.observations ]

abbrev pub status_of : Run → String → String
status_of run d = elim (find_key d run.parts) [ none ↦ "" | some a ↦ a.status ]

-- `_evidence_lines(run, domain, most)`: a measured delay first
abbrev pub evidence_lines : ℕ → Run → String → List String
evidence_lines most run d =
    let found = keep is_flagged (observations_of run d) in
    take most
      (map (λ o. o.text) (sort_by (λ a b. a.kind == "delay" && not (b.kind == "delay")) found))

-- `EFFECT_SIGNALS`
abbrev effect_signals : List String
effect_signals =
    "vehicle.velocity" ∷ "vehicle.ground_speed" ∷ "vehicle.yaw_rate" ∷ "vehicle.airspeed"
    ∷ "vehicle.altitude" ∷ "vehicle.attitude" ∷ []

abbrev is_effect_signal : Option String → Bool
is_effect_signal none = false
is_effect_signal (some s) = elem s effect_signals

-- `_effect_only(run, domain)`
abbrev pub effect_only : Run → String → Bool
effect_only run d =
    let found = keep is_flagged (observations_of run d) in
    not (is_nil found) && every (λ o. o.kind == "anomaly" && is_effect_signal o.signal) found

-- `_localized(run)`, from the axes that departed and the number that tracked normally
abbrev localized_from : List String → ℕ → Option String
localized_from (axis ∷ []) normal =
    if leb 2 normal
    then some (
        "Only "
        & (axis
            & (" stopped following its commands while "
                & (number_text normal
                    & " other joints tracked normally; a lost operator link would usually affect every joint"))))
    else none
localized_from _ normal = none

abbrev pub localized : Run → Option String
localized run =
    let axes = keep (λ a. a.pair == "joint_position") run.axes in
    localized_from (map (λ a. a.axis) (keep (λ a. a.status == "departed") axes))
      (length (keep (λ a. a.status == "tracking_within_baseline") axes))

-- `board.get(domain)`, where a later row of a part takes the place of an earlier one
abbrev pub board_of : Run → String → Option BoardRow
board_of run d = last? (keep (λ r. r.domain == d) run.board)

abbrev row_excludes : Option BoardRow → Bool
row_excludes none = false
row_excludes (some r) = is_ruled_out r.placing.column

abbrev pub out : Run → String → Bool
out run d = row_excludes (board_of run d)

abbrev pub has_evidence : Run → String → Bool
has_evidence run d = elem (status_of run d) evidence_statuses

abbrev pub part_names : Run → List String
part_names run = map (λ p. p.0) run.parts

-- `open_parts`
abbrev pub open_parts : Run → List String
open_parts run = keep (λ d. not (out run d)) (part_names run)

-- the test of `effects`: a part that only shows how the machine moved, beside one that shows more
abbrev pub is_effect : Run → String → Bool
is_effect run d =
    has_evidence run d
    && effect_only run d
    && any (λ x. has_evidence run x && not (effect_only run x))
        (keep (λ x. not (x == d)) (open_parts run))

abbrev pub with_evidence : Run → List String
with_evidence run = keep (λ d. has_evidence run d && not (is_effect run d)) (open_parts run)

-- `local and "network" in unmeasured`
abbrev pub link_is_less_likely : Run → List String → Bool
link_is_less_likely run unmeasured =
    elem "network" unmeasured && elim (localized run) [ none ↦ false | some _ ↦ true ]

-- `unmeasured`, of the parts whose status is "not_observed"
abbrev pub unmeasured : Run → List String
unmeasured run =
    let parts = keep (λ d. status_of run d == "not_observed") (open_parts run) in
    if link_is_less_likely run parts then keep (λ d. not (d == "network")) parts else parts

-- `candidates`
unfoldable pub candidates : Run → List String
candidates run =
    if leb 2 (length (with_evidence run))
    then with_evidence run
    else with_evidence run ++ unmeasured run

-- A dictionary with "part", "label" and, by its use, "status", "why", "by" and "evidence".
pub record PartNote : Type 0 where
  pub part : String
  pub label : String
  pub about : String
  pub evidence : List String

abbrev part_note : Run → String → List String → String → PartNote
part_note run about evidence d = record {
  part = d;
  label = label run d;
  about = about;
  evidence = evidence;
}

-- What `assess` returns.
pub record Assessed : Type 0 where
  pub supported : List PartNote
  pub cannot_tell_apart : List PartNote
  pub why_not_separable : String
  pub less_likely : List PartNote
  pub effects : List PartNote
  pub ruled_out : List PartNote

abbrev why_not_separable : ℕ → ℕ → String
why_not_separable evidenced found =
    if leb 2 found
    then (if leb 2 evidenced
        then "Both show something wrong in the same window, and no record shows which came first or which caused the other."
        else "Only one part shows evidence, but the others were not measured, so they are not excluded.")
    else if leb 1 found
    then "One part explains what was recorded, and nothing else is left open by the data."
    else "Nothing in the logs points at a part yet."

abbrev less_likely_parts : Run → List PartNote
less_likely_parts run =
    map (part_note run "No delay where it was measured" [])
      (keep (λ d. status_of run d == "no_delay_observed_in_measured_part") (open_parts run))
    ++ elim (localized run) [
      | none ↦ []
      | some why ↦
          if elem "network" (keep (λ d. status_of run d == "not_observed") (open_parts run))
          then part_note run why [] "network" ∷ []
          else []
    ]

abbrev excluded_by : Run → String → String
excluded_by run d = elim (board_of run d) [
  | none ↦ ""
  | some r ↦ elim r.human [ none ↦ "" | some e ↦ e.actor ]
]

abbrev pub supported_note : Run → String → PartNote
supported_note run d = part_note run (status_of run d) (evidence_lines 3 run d) d

abbrev pub effect_note : Run → String → PartNote
effect_note run d =
    part_note run
      "Only shows how the machine moved (likely the symptom itself), not a fault in this part"
      (evidence_lines 1 run d) d

-- `assess(run)`
unfoldable pub assess : Run → Assessed
unfolding candidates
assess run = record {
  supported = map (supported_note run) (with_evidence run);
  cannot_tell_apart =
      if leb 2 (length (candidates run)) then map (part_note run "" []) (candidates run) else [];
  why_not_separable = why_not_separable (length (with_evidence run)) (length (candidates run));
  less_likely = less_likely_parts run;
  effects = map (effect_note run) (keep (is_effect run) (open_parts run));
  ruled_out = map (λ d. part_note run (excluded_by run d) [] d) (keep (out run) (part_names run));
}
