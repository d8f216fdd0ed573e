-- ===== src/Ledger/Scores.antt =====
-- Which part of the machine the evidence points to: `_scores` and `_top` of backend/app/engine/next_action.py,
-- `_lead`, and the questions whose answer could change an action (`gaps`), of backend/app/engine/decision_check.py.
pub mod Leading
use veyra_demo.Engine.Outcomes.{Outcome, find_table, outcome_of, splits}
use veyra_demo.Ledger.SiteResults.{SiteResult}
use veyra_demo.Ledger.Validate.Decisions.{action}
use veyra_demo.Prelude.{
  Bool, List, Option, String, [], elem, false, if◌then◌else◌, keep, leb, map, none, not, some, ℕ,
  ◌&&◌, ◌+◌, ◌==◌, ◌||◌, ◌∷◌,
}
use veyra_demo.Prelude.Sort.{sort_by}
use veyra_demo.Python.Text.{is_empty}
use veyra_demo.Python.Value.{get, is_str, text_of?}

-- A score is an integer: what was added less what was taken away.
pub record Score : Type 0 where
  pub gained : ℕ
  pub lost : ℕ

-- `ranked[0][1] > ranked[1][1]` and `ranked[0][1] - ranked[1][1] >= 2` are `exceeds 1` and `exceeds 2`.
abbrev pub exceeds : ℕ → Score → Score → Bool
exceeds n a b = leb (b.gained + a.lost + n) (a.gained + b.lost)

-- `EVIDENCE`
abbrev pub evidence_statuses : List String
evidence_statuses = "delay_observed" ∷ "anomaly_observed" ∷ []

-- `{d: (1 if run["domains"][d]["status"] in EVIDENCE else 0) for d in candidates}`, from the status of each part
abbrev pub initial_scores : (String → String) → List String → List (String × Score)
initial_scores status candidates =
    map (λ d. (d, record { gained = if elem (status d) evidence_statuses then 1 else 0; lost = 0 }))
      candidates

-- `for d in parts: if d in score: score[d] …`
abbrev pub change_scores :
    (Score → Score) → List String → List (String × Score) → List (String × Score)
change_scores f [] t = t
change_scores f (d ∷ ds) t = change_scores f ds (map (λ r. if r.0 == d then (r.0, f r.1) else r) t)

abbrev pub gain : Score → Score
gain s = record s { gained = s.gained + 2 }

abbrev pub lose : Score → Score
lose s = record s { lost = s.lost + 2 }

-- an outcome adds 2 for each part that it supports and takes 2 from each that it weakens
abbrev pub weigh : Outcome → List (String × Score) → List (String × Score)
weigh o t = change_scores lose o.weakens (change_scores gain o.supports t)

abbrev pub outcome_in : String → SiteResult → Option Outcome
outcome_in check_id r = outcome_of check_id (text_of? (get "outcome" r.payload))

-- the outcome of a site result that counts: one that was performed, with a known name
abbrev pub counted : String × SiteResult → Option Outcome
counted (i, r) = if is_str "performed" (get "status" r.payload) then outcome_in i r else none

abbrev pub weigh_counted : Option Outcome → List (String × Score) → List (String × Score)
weigh_counted none t = t
weigh_counted (some o) t = weigh o t

unfoldable pub weigh_results :
    List (String × SiteResult) → List (String × Score) → List (String × Score)
weigh_results [] t = t
weigh_results (r ∷ rs) t = weigh_results rs (weigh_counted (counted r) t)

-- `_scores(run, candidates, results)`
unfoldable pub part_scores :
    (String → String) → List String → List (String × SiteResult) → List (String × Score)
unfolding weigh_results
part_scores status candidates results = weigh_results results (initial_scores status candidates)

-- `sorted(score.items(), key=lambda kv: -kv[1])`, which keeps the order of equal scores
abbrev pub scores_more : String × Score → String × Score → Bool
scores_more a b = exceeds 1 a.1 b.1

abbrev pub ranked_parts : List (String × Score) → List (String × Score)
ranked_parts t = sort_by scores_more t

-- the first of the ranked parts, if it is alone or ahead of the second by `n`
abbrev pub ahead : ℕ → List (String × Score) → Option String
ahead n [] = none
ahead n (r ∷ []) = some r.0
ahead n (r ∷ q ∷ _) = if exceeds n r.1 q.1 then some r.0 else none

-- `_top(score)`
unfoldable pub top_part : List (String × Score) → Option String
top_part t = ahead 1 (ranked_parts t)

-- `_lead(scores)`
unfoldable pub lead_part : List (String × Score) → Option String
lead_part t = ahead 2 (ranked_parts t)

-- `REMOTE_PARTS`
abbrev pub remote_parts : List String
remote_parts = "network" ∷ "control_suite" ∷ []

abbrev pub is_remote : Option String → Bool
is_remote none = false
is_remote (some d) = elem d remote_parts

abbrev pub is_part : Option String → String → Bool
is_part none d = false
is_part (some e) d = e == d

-- `top or "unclear"`
abbrev pub or_unclear : Option String → String
or_unclear none = "unclear"
or_unclear (some d) = if is_empty d then "unclear" else d

-- `basis(scores)`: what an action rests on; the target is "" where the proposal names none
unfoldable pub action_basis : String → String → List (String × Score) → String
unfolding top_part
action_basis action target t =
    let top = top_part t in
    if action == "dispatch" || action == "replace_part"
    then (if not (is_empty target)
        then (if is_part top target
            then "target_leads"
            else if is_remote top
            then "remote_leads"
            else "unclear")
        else (if is_remote top then "remote_leads" else or_unclear top))
    else if action == "remote_fix"
    then (if not (is_empty target) && is_part top target
        then "target_leads"
        else "target_not_leading")
    else or_unclear top

-- `could_change`: the outcomes of a check that is not done whose trial scores give another basis
unfoldable pub could_change : String → String → List (String × Score) → String → List String
unfolding action_basis
could_change action target base check_id =
    map (λ r. r.1.label)
      (keep
        (λ r. not (action_basis action target (weigh r.1 base) == action_basis action target base))
        (find_table check_id splits))
