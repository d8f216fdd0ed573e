-- ===== src/Ledger/Progress.antt =====
-- The progress of a decision: `decision_state` of backend/app/engine/states.py.
pub mod Onward
use veyra_demo.Ledger.Entry.{Entry, ids}
use veyra_demo.Prelude.{
  Bool, List, String, any, if◌then◌else◌, is_nil, keep, last?, none, some, ◌&&◌, ◌==◌, ◌||◌,
}
use veyra_demo.Python.Value.{Value, get, is_str}

-- `DECISION_STATES` that `decision_state` returns
pub data DecisionState : Type 0 where
  state_decided state_acted state_outcome_recorded state_verified state_verification_rejected :
      DecisionState

-- `v in {…}` for a set of texts; the ledger records a text there.
abbrev pub is_among : List String → Value → Bool
is_among ids v = any (λ i. is_str i v) ids

-- `e["payload"].get("status") in ("performed", "simulated")`
abbrev pub is_action_of : String → Entry → Bool
is_action_of decision_id e =
    e.kind == "action"
    && is_str decision_id (get "decision_id" e.payload)
    && (is_str "performed" (get "status" e.payload) || is_str "simulated" (get "status" e.payload))

abbrev pub is_outcome_of : List String → Entry → Bool
is_outcome_of actions e = e.kind == "outcome" && is_among actions (get "action_id" e.payload)

abbrev pub is_review_of_outcome : List String → Entry → Bool
is_review_of_outcome outcomes e =
    e.kind == "outcome_review" && is_among outcomes (get "outcome_id" e.payload)

abbrev pub actions_for : List Entry → String → List String
actions_for entries decision_id = ids (keep (is_action_of decision_id) entries)

abbrev pub outcomes_for : List Entry → String → List String
outcomes_for entries decision_id =
    ids (keep (is_outcome_of (actions_for entries decision_id)) entries)

abbrev pub reviews_for : List Entry → String → List Entry
reviews_for entries decision_id =
    keep (is_review_of_outcome (outcomes_for entries decision_id)) entries

-- `decision_state(entries, decision_id)`
unfoldable pub decision_state : List Entry → String → DecisionState
decision_state entries decision_id =
    if is_nil (outcomes_for entries decision_id)
    then (if is_nil (actions_for entries decision_id) then state_decided else state_acted)
    else elim (last? (reviews_for entries decision_id)) [
      | none ↦ state_outcome_recorded
      | some review ↦
          if is_str "accepted" (get "verdict" review.payload)
          then state_verified
          else state_verification_rejected
    ]
