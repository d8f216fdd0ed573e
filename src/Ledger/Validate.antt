-- ===== src/Ledger/Validate.antt =====
-- `validate` of backend/app/ledger/model.py: one function for each kind of entry.
pub mod Checks
pub mod Decisions
pub mod Outcomes
pub mod Reports
pub mod Machine
pub mod Findings
pub mod Closure
pub mod Notes
pub mod Walkthrough
use veyra_demo.Ledger.Entry.{Entry}
use veyra_demo.Ledger.Platform.{Platform}
use veyra_demo.Ledger.Request.{Request, State, Validated}
use veyra_demo.Ledger.Validate.Checks.{check_execution, check_review, request_sent}
use veyra_demo.Ledger.Validate.Closure.{case_closure}
use veyra_demo.Ledger.Validate.Decisions.{action, decision, decision_proposal, dispatch_preparation}
use veyra_demo.Ledger.Validate.Findings.{hypothesis_status, reference_declared}
use veyra_demo.Ledger.Validate.Machine.{
  decision_check, investigation_run, machine_record, run_record,
}
use veyra_demo.Ledger.Validate.Notes.{event_note, normal_proposal, normal_review}
use veyra_demo.Ledger.Validate.Outcomes.{outcome, outcome_review, recurrence_check}
use veyra_demo.Ledger.Validate.Reports.{
  engineer_finding, intervention_report, intervention_review, model_authorization,
  reproduction_attempt, support_milestone, triage,
}
use veyra_demo.Ledger.Validate.Walkthrough.{debug_walkthrough}
use veyra_demo.Prelude.{Bool, List, String, [], if◌then◌else◌, ℕ, ◌==◌, ◌∷◌}
use veyra_demo.Python.Result.{Result, err, ledger_error, ok, ◌>>=◌, ◌>>◌}
use veyra_demo.Python.Text.{is_blank, ◌&◌}
use veyra_demo.Python.Value.{Dict, Value, obj, str}

abbrev pub Validator : Type 0
Validator = Platform → Request → Dict → Result Validated

-- The branches `if kind == …`, in the order of the code.
abbrev pub validators : List (String × Validator)
validators =
    ("investigation_run", investigation_run)
    ∷ ("check_review", check_review)
    ∷ ("check_execution", check_execution)
    ∷ ("decision", decision)
    ∷ ("request_sent", request_sent)
    ∷ ("decision_proposal", decision_proposal)
    ∷ ("dispatch_preparation", dispatch_preparation)
    ∷ ("action", action)
    ∷ ("outcome", outcome)
    ∷ ("outcome_review", outcome_review)
    ∷ ("recurrence_check", recurrence_check)
    ∷ ("intervention_report", intervention_report)
    ∷ ("intervention_review", intervention_review)
    ∷ ("reference_declared", reference_declared)
    ∷ ("triage", triage)
    ∷ ("hypothesis_status", hypothesis_status)
    ∷ ("reproduction_attempt", reproduction_attempt)
    ∷ ("acquisition", machine_record "acquisition")
    ∷ ("agent_report", run_record "agent_report")
    ∷ ("trigger_event", machine_record "trigger_event")
    ∷ ("next_action", run_record "next_action")
    ∷ ("decision_check", decision_check)
    ∷ ("evidence_discovery", run_record "evidence_discovery")
    ∷ ("model_authorization", model_authorization)
    ∷ ("event_note", event_note)
    ∷ ("engineer_finding", engineer_finding)
    ∷ ("case_closure", case_closure)
    ∷ ("normal_proposal", normal_proposal)
    ∷ ("normal_review", normal_review)
    ∷ ("debug_walkthrough", debug_walkthrough)
    ∷ ("support_milestone", support_milestone)
    ∷ []

-- The first branch whose kind is the entry's; `else: raise`.
unfoldable pub dispatch : List (String × Validator) → String → Validator
dispatch [] kind p r payload = err (ledger_error ("Unknown ledger entry kind '" & kind & "'"))
dispatch ((k, v) ∷ table) kind p r payload =
    if kind == k then v p r payload else dispatch table kind p r payload

unfoldable pub require_actor : Value → Result String
require_actor (str s) = if is_blank s then err (ledger_error "actor is required") else ok s
require_actor _ = err (ledger_error "actor is required")

-- `validate(kind, payload, actor, entries, state, now, trusted_automatic=trusted)`
unfoldable pub validate :
    Platform → String → Value → Value → List Entry → State → ℕ → Bool → Result Validated
unfolding dispatch require_actor
validate p kind (obj payload) actor entries state now trusted = do
  name ← require_actor actor
  dispatch validators kind p
      (record {
        actor = name;
        entries = entries;
        state = state;
        now = now;
        trusted_automatic = trusted;
      })
      payload
validate p kind _ actor entries state now trusted = err (ledger_error "payload must be an object")
