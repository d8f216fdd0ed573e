-- ===== src/Ledger/Lifecycle.antt =====
-- The check lifecycle of backend/app/engine/states.py: `check_state`, `CHECK_TRANSITIONS` and
-- `require_check_transition`, with `_transition` of backend/app/ledger/model.py.
use veyra_demo.Ledger.Entry.{Entry}
use veyra_demo.Prelude.{
  Bool, List, Option, String, [], any, arith, false, if◌then◌else◌, none, not, some, true, ◌&&◌,
  ◌==◌, ◌∷◌, ◌≡◌,
}
use veyra_demo.Python.Result.{
  Result, err, key_error, ledger_error, ok, or_raise, raise_if, state_error, ◌>>=◌, ◌>>◌,
}
use veyra_demo.Python.Text.{◌&◌}
use veyra_demo.Python.Value.{Value, arr, get, is_str, items, value_eq}

-- `CHECK_STATES`
pub data CheckState : Type 0 where
  proposed approved rejected sent answered not_performed : CheckState

-- `check_id in (p.get("check_ids") or [])`; the validator records a list there.
abbrev pub is_listed : String → Value → Bool
is_listed check_id (arr vs) = any (is_str check_id) (items vs)
is_listed check_id _ = false

-- One round of the loop in `check_state`.
unfoldable pub check_step : Value → String → CheckState → Entry → CheckState
check_step run_id check_id state e =
    if not (value_eq (get "run_id" e.payload) run_id)
    then state
    else if e.kind == "check_review" && is_str check_id (get "check_id" e.payload)
    then (if is_str "rejected" (get "verdict" e.payload) then rejected else approved)
    else if e.kind == "request_sent" && is_listed check_id (get "check_ids" e.payload)
    then sent
    else if e.kind == "check_execution" && is_str check_id (get "check_id" e.payload)
    then (if is_str "not_performed" (get "status" e.payload) then not_performed else answered)
    else state

unfoldable pub check_state_from : Value → String → CheckState → List Entry → CheckState
check_state_from run_id check_id state [] = state
check_state_from run_id check_id state (e ∷ es) =
    check_state_from run_id check_id (check_step run_id check_id state e) es

-- `check_state(entries, run_id, check_id)`
unfoldable pub check_state : List Entry → Value → String → CheckState
unfolding check_state_from
check_state entries run_id check_id = check_state_from run_id check_id proposed entries

-- `state in CHECK_TRANSITIONS[kind]`; `none` for a kind that the table does not have.
unfoldable pub may_act : String → CheckState → Option Bool
may_act kind state =
    if kind == "check_review"
    then some (elim state [ proposed ↦ true | approved ↦ true | rejected ↦ true | _ ↦ false ])
    else if kind == "request_sent"
    then some (elim state [ approved ↦ true | sent ↦ true | _ ↦ false ])
    else if kind == "check_execution"
    then some (elim state [ approved ↦ true | sent ↦ true | not_performed ↦ true | _ ↦ false ])
    else none

abbrev why_not : CheckState → String
why_not answered = "it already has a result in this run"
why_not rejected = "it was rejected"
why_not proposed = "it has not been approved"
why_not not_performed = "it was recorded as not performed"
why_not approved = "it is approved"
why_not sent = "it is sent"

abbrev what_for : String → String
what_for kind =
    if kind == "check_review"
    then "review it again"
    else if kind == "request_sent"
    then "record a request for it"
    else "record a result"

unfoldable pub require_check_transition : String → List Entry → Value → String → Result CheckState
unfolding may_act
require_check_transition kind entries run_id check_id = do
  let state = check_state entries run_id check_id
  allowed ← or_raise (may_act kind state) (key_error kind)
  raise_if (not allowed)
      (state_error ("Cannot " & what_for kind & " for " & check_id & ": " & why_not state))
  ok state

-- `except StateError as exc: raise LedgerError(str(exc))`
abbrev pub as_ledger_error {ℓ} : {A : Type ℓ} → Result A → Result A
as_ledger_error (ok a) = ok a
as_ledger_error (err (state_error m)) = err (ledger_error m)
as_ledger_error (err e) = err e

-- `_transition(kind, entries, run_id, check_id)`
unfoldable pub transition : String → List Entry → Value → String → Result (Unit {0})
unfolding require_check_transition
transition kind entries run_id check_id =
    as_ledger_error (require_check_transition kind entries run_id check_id) >>= λ _. ok tt

-- A transition that is let through starts in a state that the table lists for the kind.
pub transition-may_act :
    (kind : String) (entries : List Entry) (run_id : Value) (check_id : String) {u : Unit {0}}
    → transition kind entries run_id check_id ≡ ok u
    → may_act kind (check_state entries run_id check_id) ≡ some true
unfolding transition
transition-may_act kind entries run_id check_id h = ground arith
