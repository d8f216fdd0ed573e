-- ===== src/Advice/Compare.antt =====
-- Which checks to ask for next: `compare` and `plan` of backend/app/engine/next_action.py.
pub mod Asked
use veyra_demo.Advice.Assess.{Assessed, Run, candidates, label, status_of}
use veyra_demo.Advice.Checks.{
  Availability, needs_authorization, needs_context, needs_data, onsite_required, ready_automatic,
  ready_remote, state_text,
}
use veyra_demo.Advice.Rank.{RankedCheck, flag}
use veyra_demo.Engine.Outcomes.{Outcome, find_key, find_table, splits}
use veyra_demo.Ledger.Scores.{Score, is_remote, part_scores, top_part, weigh}
use veyra_demo.Ledger.SiteResults.{SiteResult}
use veyra_demo.Prelude.{
  Bool, List, Option, String, [], any, bool_eq, elem, every, false, if◌then◌else◌, is_nil, keep,
  leb, length, ltb, map, nat_eq, nats_eq, none, not, some, true, ℕ, ◌&&◌, ◌++◌, ◌+◌, ◌==◌, ◌||◌,
  ◌∷◌,
}
use veyra_demo.Prelude.Sort.{lex_lt, sort_by}
use veyra_demo.Python.Text.{is_empty, join, number_text, sorted, ◌&◌}
use veyra_demo.Python.Value.{get, is_str}

-- `ACCESS`, whose second part is a text
abbrev pub access : Availability → ℕ × String
access ready_automatic = (0, "Veyra runs it")
access ready_remote = (1, "remote, by a person")
access needs_context = (2, "remote, after confirming context")
access needs_authorization = (2, "remote, needs the site owner's permission")
access needs_data = (3, "needs data first")
access onsite_required = (4, "on site")
access other = (5, state_text other)

-- `DISRUPTION.get(disruption, 1)`
abbrev disruption : String → ℕ
disruption s = if s == "none" then 0 else if s == "high" then 2 else 1

-- `YIELDS_RECORD`
abbrev yields_record : List String
yields_record = "CHK-CONTROLLER-LOGS" ∷ "CHK-NETWORK-LOGS" ∷ "CHK-DRIVE-LOGS" ∷ []

abbrev pub same_part : Option String → Option String → Bool
same_part none none = true
same_part (some d) (some e) = d == e
same_part _ _ = false

-- `up` and `down`, of the candidates
abbrev among : List String → List String → List String
among parts candidates = keep (λ d. elem d parts) candidates

abbrev clause : Run → String → List String → List String
clause run word [] = []
clause run word (d ∷ ds) =
    (join ", " (map (label run) (sorted (d ∷ ds))) & (" " & (word & " likely"))) ∷ []

-- `meaning`
abbrev meaning : Run → List String → Outcome → String
meaning run candidates o =
    elim (clause run "more" (among o.supports candidates)
      ++ clause run "less" (among o.weakens candidates)) [
        | [] ↦ "doesn't change which explanation is more likely"
        | c ∷ cs ↦ join "; " (c ∷ cs)
      ]

-- `moved`
abbrev pub moves : List (String × Score) → Outcome → Bool
moves base o = not (same_part (top_part (weigh o base)) (top_part base))

-- the part on top moves between one that can be changed remotely and one that needs hands on the machine
abbrev is_some : Option String → Bool
is_some none = false
is_some (some d) = not (is_empty d)

abbrev moves_travel : List (String × Score) → Outcome → Bool
moves_travel base o =
    moves base o
    && is_some (top_part base)
    && is_some (top_part (weigh o base))
    && not (bool_eq (is_remote (top_part base)) (is_remote (top_part (weigh o base))))

-- an outcome that supports one candidate and weakens every other one
abbrev settles : List String → Outcome → Bool
settles candidates o =
    nat_eq (length (among o.supports candidates)) 1
    && every (λ d. elem d o.weakens || elem d o.supports) candidates
    && ltb 1 (length candidates)

-- One row of `compare`; its position is its place in the list.
pub record Row : Type 0 where
  pub check : RankedCheck
  pub place : ℕ
  pub done : Bool
  pub informs : List String
  pub could_change : List String
  pub could_change_travel : List String
  pub settles_alone : List String
  pub outcomes : List (String × String × String)
  pub note : Option String

abbrev labels_of : List (String × Outcome) → List String
labels_of os = map (λ o. o.1.label) os

abbrev note_on : List String → String → Option String
note_on present check_id =
    if check_id == "CHK-CONTROLLER-LOGS"
      && not (
          any (λ s. elem s present)
            ("controller.reset" ∷ "controller.event" ∷ "app.heartbeat" ∷ "fault.code" ∷ []))
    then some
        "No controller events are in the recording, so the log is new information, not a re-read."
    else if check_id == "CHK-DRIVE-LOGS" && elem "actuator.status" present
    then some
        "The recording already has the drive's status messages; the drive's own log adds temperature, encoder and power errors."
    else none

abbrev pub is_performed : List (String × SiteResult) → String → Bool
is_performed results check_id = elim (find_key check_id results) [
  | none ↦ false
  | some r ↦ is_str "performed" (get "status" r.payload)
]

-- One round of the loop in `compare`, for an eligible check with its outcomes in `SPLITS`.
unfoldable pub compare_row :
    Run → List String → List (String × Score) → List (String × SiteResult) → ℕ → RankedCheck → Row
unfolding top_part
compare_row run candidates base results place check =
    let outcomes = find_table check.check.id splits in
    record {
      check = check;
      place = place;
      done = is_performed results check.check.id;
      informs = map (label run) (
          keep (λ d. any (λ o. elem d o.1.supports || elem d o.1.weakens) outcomes)
            (sorted candidates));
      could_change = labels_of (keep (λ o. moves base o.1) outcomes);
      could_change_travel = labels_of (keep (λ o. moves_travel base o.1) outcomes);
      settles_alone = labels_of (keep (λ o. settles candidates o.1) outcomes);
      outcomes = map (λ o. (o.0, o.1.label, meaning run candidates o.1)) outcomes;
      note = note_on run.signals check.check.id;
    }

-- `cid not in SPLITS or not check_policy.eligible(check)`, of a check with its eligibility
abbrev pub is_compared : RankedCheck → Bool
is_compared check =
    not (is_nil (find_table check.check.id splits)) && check.eligibility_now.eligible

unfoldable pub rows_from : (ℕ → RankedCheck → Row) → ℕ → List RankedCheck → List Row
rows_from row n [] = []
rows_from row n (check ∷ checks) =
    let rest = rows_from row (n + 1) checks in
    if is_compared check then row n check ∷ rest else rest

abbrev first_keys : Row → List ℕ
first_keys r = flag (not (is_nil r.could_change_travel)) ∷ flag (not (is_nil r.could_change)) ∷ []

abbrev access_keys : Row → List ℕ
access_keys r = (access r.check.availability.state).0 ∷ disruption r.check.check.disruption ∷ []

-- `a["_key"] < b["_key"]`, whose third number counts downwards
abbrev pub row_before : Row → Row → Bool
row_before a b = lex_lt (first_keys a) (first_keys b) (
    lex_lt (length b.informs ∷ []) (length a.informs ∷ []) (
      lex_lt (access_keys a ++ flag (elem a.check.check.id yields_record) ∷ a.place ∷ [])
        (access_keys b ++ flag (elem b.check.check.id yields_record) ∷ b.place ∷ []) false))

-- `compare(run, assessment, results)`
unfoldable pub compare_checks : Run → Assessed → List (String × SiteResult) → List Row
unfolding compare_row rows_from part_scores
compare_checks run assessment results =
    let candidates = map (λ n. n.part) assessment.cannot_tell_apart in
    sort_by row_before (
      rows_from
        (compare_row run candidates (part_scores (status_of run) candidates results) results) 1
        run.checks)

-- `x["_key"][:5] == r["_key"][:5]`
abbrev same_keys : Row → Row → Bool
same_keys a b =
    nats_eq (first_keys a ++ length a.informs ∷ access_keys a)
      (first_keys b ++ length b.informs ∷ access_keys b)

-- `tied_with`; no two rows have one check
unfoldable pub tied_rows : List Row → Row → List String
tied_rows rows r =
    map (λ x. x.check.check.id) (keep (λ x. not (nat_eq x.place r.place) && same_keys x r) rows)

-- `ranking_basis`
unfoldable pub ranking_basis : Row → List String
ranking_basis r =
    (if not (is_nil r.could_change_travel)
      then "could change whether someone needs to travel"
      else if not (is_nil r.could_change)
      then "could change which explanation is more likely"
      else "would not change which explanation is more likely")
    ∷ ("informs " & (number_text (length r.informs) & " open explanation(s)"))
    ∷ (access r.check.availability.state).1
    ∷ ("disruption "
        & (if is_empty r.check.check.disruption then "unknown" else r.check.check.disruption))
    ∷ []

-- `settles_note`
unfoldable pub settles_note : Row → String
settles_note r = elim r.settles_alone [
  | [] ↦ "No single result settles it alone"
  | s ∷ ss ↦ "Under Veyra's written (not yet validated) rules, one result would settle it: " & s
]

abbrev pub is_onsite : Row → Bool
is_onsite r = elim r.check.availability.state [ onsite_required ↦ true | _ ↦ false ]

-- `effect`, and equality of two such sets
abbrev pub effect : Row → List (String × String)
effect r = map (λ (key, label, meaning). (key, meaning)) r.outcomes

abbrev in_effect : List (String × String) → String × String → Bool
in_effect e p = any (λ q. q.0 == p.0 && q.1 == p.1) e

abbrev pub same_effect : Row → Row → Bool
same_effect a b = every (in_effect (effect a)) (effect b) && every (in_effect (effect b)) (effect a)

-- One round of the loop in `plan`; `seen` holds the effects of what was picked.
abbrev pub plan_step : ℕ → List Row → Row → List Row
plan_step most picked r =
    if is_onsite r || r.done || is_nil r.could_change || leb most (length picked)
    then picked
    else if any (λ p. same_effect p r) picked
    then picked
    else picked ++ r ∷ []

unfoldable pub plan_from : ℕ → List Row → List Row → List Row
plan_from most picked [] = picked
plan_from most picked (r ∷ rs) = plan_from most (plan_step most picked r) rs

-- `plan(run, assessment, most, results)`
unfoldable pub plan : Run → Assessed → ℕ → List (String × SiteResult) → List Row
unfolding plan_from compare_checks
plan run assessment most results = plan_from most [] (compare_checks run assessment results)
