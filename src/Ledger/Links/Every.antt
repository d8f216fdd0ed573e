-- ===== src/Ledger/Links/Every.antt =====
-- Every kind of entry: the links of an accepted entry are entries of the case.
use veyra_demo.Ledger.Entry.{Entry}
use veyra_demo.Ledger.Links.{IsEntryId, LinksKnown}
use veyra_demo.Ledger.Links.Checks.{check_execution-links, check_review-links, request_sent-links}
use veyra_demo.Ledger.Links.Decisions.{
  action-links, decision-links, decision_proposal-links, dispatch_preparation-links,
}
use veyra_demo.Ledger.Links.Others.{
  case_closure-links, debug_walkthrough-links, decision_check-links, engineer_finding-links,
  event_note-links, hypothesis_status-links, intervention_report-links, intervention_review-links,
  investigation_run-links, machine_record-links, model_authorization-links, normal_proposal-links,
  normal_review-links, reference_declared-links, reproduction_attempt-links, run_record-links,
  support_milestone-links, triage-links,
}
use veyra_demo.Ledger.Links.Outcomes.{outcome-links, outcome_review-links, recurrence_check-links}
use veyra_demo.Ledger.Platform.{Platform}
use veyra_demo.Ledger.Request.{Request, State, Validated}
use veyra_demo.Ledger.Validate.{Validator, dispatch, require_actor, validate, validators}
use veyra_demo.Prelude.{All, Bool, List, String, [], all_cons, all_nil, arith, ℕ, ◌==◌, ◌∷◌, ◌≡◌}
use veyra_demo.Python.Result.{>>=-eq-ok, Ensures, Ensures-if, Ensures-ok, ok, raises}
use veyra_demo.Python.Value.{Dict, Value, obj}

abbrev HasKnownLinks : String × Validator → Type 0
HasKnownLinks row =
    (p : Platform) (r : Request) (payload : Dict) → Ensures (LinksKnown r) (row.1 p r payload)

infixr 20 ◌⊕◌
abbrev ◌⊕◌ :
    {x : String × Validator} {xs : List (String × Validator)}
    → HasKnownLinks x
    → All HasKnownLinks xs
    → All HasKnownLinks (x ∷ xs)
◌⊕◌ h hs = all_cons h hs

validators-links : All HasKnownLinks validators
validators-links =
    investigation_run-links
    ⊕ check_review-links
    ⊕ check_execution-links
    ⊕ decision-links
    ⊕ request_sent-links
    ⊕ decision_proposal-links
    ⊕ dispatch_preparation-links
    ⊕ action-links
    ⊕ outcome-links
    ⊕ outcome_review-links
    ⊕ recurrence_check-links
    ⊕ intervention_report-links
    ⊕ intervention_review-links
    ⊕ reference_declared-links
    ⊕ triage-links
    ⊕ hypothesis_status-links
    ⊕ reproduction_attempt-links
    ⊕ (machine_record-links "acquisition")
    ⊕ (run_record-links "agent_report")
    ⊕ (machine_record-links "trigger_event")
    ⊕ (run_record-links "next_action")
    ⊕ decision_check-links
    ⊕ (run_record-links "evidence_discovery")
    ⊕ model_authorization-links
    ⊕ event_note-links
    ⊕ engineer_finding-links
    ⊕ case_closure-links
    ⊕ normal_proposal-links
    ⊕ normal_review-links
    ⊕ debug_walkthrough-links
    ⊕ support_milestone-links
    ⊕ all_nil

dispatch-links :
    (table : List (String × Validator))
    → All HasKnownLinks table
    → (kind : String) (p : Platform) (r : Request) (payload : Dict)
    → Ensures (LinksKnown r) (dispatch table kind p r payload)
unfolding dispatch
dispatch-links [] h kind p r payload = raises _
dispatch-links ((k, v) ∷ table) (all_cons known rest) kind p r payload =
    Ensures-if (kind == k) _ _ (λ _. known p r payload)
      (λ _. dispatch-links table rest kind p r payload)

-- Whatever the kind and the payload, the links of an entry that `validate` accepts are ids of
-- entries that the case already holds.
pub validate-links :
    (p : Platform) (kind : String) (payload actor : Value) (entries : List Entry) (state : State)
    (now : ℕ) (trusted : Bool) (v : Validated)
    → validate p kind payload actor entries state now trusted ≡ ok v
    → All (IsEntryId entries) v.1
unfolding validate
validate-links p kind (obj payload) actor entries state now trusted v h =
    let (name, named, h') = >>=-eq-ok (require_actor actor) _ h in
    Ensures-ok (dispatch-links validators validators-links kind p _ payload) h'
validate-links p kind _ actor entries state now trusted v h = ground arith
