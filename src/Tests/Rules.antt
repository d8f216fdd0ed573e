-- ===== src/Tests/Rules.antt =====
-- `validate` on one case: what it answers, and the rules at these answers.
use veyra_demo.Engine.Outcomes.{outcome_names}
use veyra_demo.Ledger.Chain.{build_entry}
use veyra_demo.Ledger.Confirmation.{
  by_id, confirming_kind, confirming_test, confirms, examined_domains, examines_other,
  require_confirming_record, review_domains, some_confirms,
}
use veyra_demo.Ledger.Lifecycle.{
  check_state, check_state_from, check_step, may_act, require_check_transition, transition,
}
use veyra_demo.Ledger.Links.{IsEntryId}
use veyra_demo.Ledger.Links.Every.{validate-links}
use veyra_demo.Ledger.Moves.Complete.{step_entry}
use veyra_demo.Ledger.Moves.Every.{MovesOrStays, validate-Executed, validate-MovesOrStays}
use veyra_demo.Ledger.Moves.Execution.{Executed}
use veyra_demo.Ledger.Payload.{
  choice, choice_if, id_list, read_choice, read_ids, read_moment, read_text, text, text_if, time,
}
use veyra_demo.Ledger.Request.{find, latest_run, request, require_current_run, run_entry}
use veyra_demo.Ledger.Rules.Confirm.{Confirmed, validate-case_closure}
use veyra_demo.Ledger.Rules.Current.{RestsOnCurrent, validate-RestsOnCurrent}
use veyra_demo.Ledger.Rules.Trust.{IsHuman, validate-IsHuman}
use veyra_demo.Ledger.Rules.Window.{Observed, validate-outcome}
use veyra_demo.Ledger.Validate.{dispatch, require_actor, validate}
use veyra_demo.Ledger.Validate.Checks.{
  allowed_outcomes, any_review, check_execution, execution_result, guard_answered, guard_automatic,
  is_review_of, performed_result, procedure_of, read_outcome, standing_review,
}
use veyra_demo.Ledger.Validate.Closure.{
  case_closure, closed_run, engine_statuses, evidence_strength, guard_confirmed, is_duration,
  previous_closure, run_id_of, statuses,
}
use veyra_demo.Ledger.Validate.Decisions.{
  decision, decision_basis, decision_proposal, known_parts, part, read_options, read_relied,
}
use veyra_demo.Ledger.Validate.Notes.{normal_review}
use veyra_demo.Ledger.Validate.Outcomes.{
  covers_window, guard_after_action, moment_of, moment_of_value, outcome, outcome_review,
}
use veyra_demo.Prelude.{All, false, refl, ◌≡◌}
use veyra_demo.Python.Result.{ok, select, traverse}
use veyra_demo.Python.Text.{char_count, lstrip, replace_z, rstrip, strip}
use veyra_demo.Python.Value.{dict, get, obj, str, value_eq}
use veyra_demo.Tests.Case.{
  all_entries, asked, closure_fields, decision_fields, execution_fields, held, is_accepted,
  outcome_fields, proposal_fields, review_fields, reviewed_entries, the_state,
}
use veyra_demo.Tests.Toy.{parse_from, toy, toy-ReadsBack, toy_isoformat}

-- a second result of the same check is refused
execution_is_refused :
    is_accepted (asked "check_execution" execution_fields "Ann" all_entries false) ≡ false
unfolding validate dispatch require_actor strip lstrip rstrip char_count require_current_run
    run_entry latest_run find build_entry text read_text text_if choice read_choice choice_if
    id_list read_ids time read_moment replace_z parse_from toy_isoformat check_execution any_review
    is_review_of standing_review guard_answered guard_automatic procedure_of execution_result
    performed_result read_outcome allowed_outcomes outcome_names transition require_check_transition
    check_state check_state_from check_step may_act select value_eq
execution_is_refused = refl

own_review_is_refused :
    is_accepted (asked "outcome_review" (review_fields "outcome_id") " Ann " all_entries false)
    ≡ false
unfolding validate dispatch require_actor strip lstrip rstrip char_count require_current_run
    run_entry latest_run find build_entry text read_text text_if choice read_choice choice_if
    id_list read_ids time read_moment replace_z parse_from toy_isoformat outcome_review
    normal_review
own_review_is_refused = refl

check_execution_is_accepted :
    asked "check_execution" execution_fields "Ann" reviewed_entries false
    ≡ ok (held (asked "check_execution" execution_fields "Ann" reviewed_entries false))
unfolding validate dispatch require_actor strip lstrip rstrip char_count require_current_run
    run_entry latest_run find build_entry text read_text text_if choice read_choice choice_if
    id_list read_ids time read_moment replace_z parse_from toy_isoformat check_execution any_review
    is_review_of standing_review guard_answered guard_automatic procedure_of execution_result
    performed_result read_outcome allowed_outcomes outcome_names transition require_check_transition
    check_state check_state_from check_step may_act select value_eq
check_execution_is_accepted = refl

validate-links_example :
    All
      (IsEntryId reviewed_entries)
      (held (asked "check_execution" execution_fields "Ann" reviewed_entries false)).1
validate-links_example =
    validate-links toy "check_execution" (obj (dict execution_fields)) (str "Ann") reviewed_entries
      the_state 9 false
      (held (asked "check_execution" execution_fields "Ann" reviewed_entries false))
      check_execution_is_accepted

decision_is_accepted :
    asked "decision" decision_fields "Ann" reviewed_entries false
    ≡ ok (held (asked "decision" decision_fields "Ann" reviewed_entries false))
unfolding validate dispatch require_actor strip lstrip rstrip char_count require_current_run
    run_entry latest_run find build_entry text read_text text_if choice read_choice choice_if
    id_list read_ids time read_moment replace_z parse_from toy_isoformat decision read_options
    decision_basis value_eq
decision_is_accepted = refl

validate-RestsOnCurrent_example :
    RestsOnCurrent
      (request (str "Ann") reviewed_entries the_state 9 false)
      (held (asked "decision" decision_fields "Ann" reviewed_entries false))
validate-RestsOnCurrent_example =
    validate-RestsOnCurrent toy "decision" (obj (dict decision_fields)) (str "Ann") reviewed_entries
      the_state 9 false (held (asked "decision" decision_fields "Ann" reviewed_entries false)) refl
      decision_is_accepted

decision_proposal_is_accepted :
    asked "decision_proposal" proposal_fields "Ann" all_entries false
    ≡ ok (held (asked "decision_proposal" proposal_fields "Ann" all_entries false))
unfolding validate dispatch require_actor strip lstrip rstrip char_count require_current_run
    run_entry latest_run find build_entry text read_text text_if choice read_choice choice_if
    id_list read_ids time read_moment replace_z parse_from toy_isoformat decision_proposal
    known_parts part read_relied traverse value_eq
decision_proposal_is_accepted = refl

validate-IsHuman_example :
    IsHuman "decision_proposal"
      (held (asked "decision_proposal" proposal_fields "Ann" all_entries false)).0
validate-IsHuman_example =
    validate-IsHuman toy "decision_proposal" (obj (dict proposal_fields)) (str "Ann") all_entries
      the_state 9 (held (asked "decision_proposal" proposal_fields "Ann" all_entries false))
      decision_proposal_is_accepted

outcome_review_is_accepted :
    asked "outcome_review" (review_fields "outcome_id") "Bob" all_entries false
    ≡ ok (held (asked "outcome_review" (review_fields "outcome_id") "Bob" all_entries false))
unfolding validate dispatch require_actor strip lstrip rstrip char_count require_current_run
    run_entry latest_run find build_entry text read_text text_if choice read_choice choice_if
    id_list read_ids time read_moment replace_z parse_from toy_isoformat outcome_review
    normal_review
outcome_review_is_accepted = refl

normal_review_is_accepted :
    asked "normal_review" (review_fields "proposal_id") "Bob" all_entries false
    ≡ ok (held (asked "normal_review" (review_fields "proposal_id") "Bob" all_entries false))
unfolding validate dispatch require_actor strip lstrip rstrip char_count require_current_run
    run_entry latest_run find build_entry text read_text text_if choice read_choice choice_if
    id_list read_ids time read_moment replace_z parse_from toy_isoformat outcome_review
    normal_review
normal_review_is_accepted = refl

outcome_is_accepted :
    asked "outcome" outcome_fields "Ann" all_entries false
    ≡ ok (held (asked "outcome" outcome_fields "Ann" all_entries false))
unfolding validate dispatch require_actor strip lstrip rstrip char_count require_current_run
    run_entry latest_run find build_entry text read_text text_if choice read_choice choice_if
    id_list read_ids time read_moment replace_z parse_from toy_isoformat outcome guard_after_action
    moment_of moment_of_value covers_window
outcome_is_accepted = refl

validate-outcome_example :
    Observed toy
      (request (str "Ann") all_entries the_state 9 false)
      (held (asked "outcome" outcome_fields "Ann" all_entries false))
validate-outcome_example =
    validate-outcome toy toy-ReadsBack (obj (dict outcome_fields)) (str "Ann") all_entries the_state
      9 false (held (asked "outcome" outcome_fields "Ann" all_entries false)) outcome_is_accepted

case_closure_is_accepted :
    asked "case_closure" closure_fields "Ann" all_entries false
    ≡ ok (held (asked "case_closure" closure_fields "Ann" all_entries false))
unfolding validate dispatch require_actor strip lstrip rstrip char_count require_current_run
    run_entry latest_run find build_entry text read_text text_if choice read_choice choice_if
    id_list read_ids time read_moment replace_z parse_from toy_isoformat case_closure closed_run
    guard_confirmed is_duration require_confirming_record some_confirms by_id confirms
    confirming_kind confirming_test examines_other examined_domains review_domains engine_statuses
    statuses run_id_of previous_closure evidence_strength value_eq
case_closure_is_accepted = refl

named_confirmed :
    get "investigation_status"
      (held (asked "case_closure" closure_fields "Ann" all_entries false)).0
    ≡ str "cause_confirmed"
unfolding validate dispatch require_actor strip lstrip rstrip char_count require_current_run
    run_entry latest_run find build_entry text read_text text_if choice read_choice choice_if
    id_list read_ids time read_moment replace_z parse_from toy_isoformat case_closure closed_run
    guard_confirmed is_duration require_confirming_record some_confirms by_id confirms
    confirming_kind confirming_test examines_other examined_domains review_domains engine_statuses
    statuses run_id_of previous_closure evidence_strength value_eq
named_confirmed = refl

validate-case_closure_example :
    Confirmed
      (request (str "Ann") all_entries the_state 9 false)
      (held (asked "case_closure" closure_fields "Ann" all_entries false))
validate-case_closure_example =
    validate-case_closure toy (obj (dict closure_fields)) (str "Ann") all_entries the_state 9 false
      (held (asked "case_closure" closure_fields "Ann" all_entries false)) case_closure_is_accepted
      named_confirmed

validate-Executed_example :
    Executed reviewed_entries false
      (held (asked "check_execution" execution_fields "Ann" reviewed_entries false))
validate-Executed_example =
    validate-Executed toy (obj (dict execution_fields)) (str "Ann") reviewed_entries the_state 9
      false (held (asked "check_execution" execution_fields "Ann" reviewed_entries false))
      check_execution_is_accepted

validate-MovesOrStays_example :
    MovesOrStays (check_state reviewed_entries (str "r1") "CHK-NETWORK-LOGS") (
      check_step
        (str "r1")
        "CHK-NETWORK-LOGS"
        (check_state reviewed_entries (str "r1") "CHK-NETWORK-LOGS")
        (step_entry "check_execution"
          (held (asked "check_execution" execution_fields "Ann" reviewed_entries false)).0))
validate-MovesOrStays_example =
    validate-MovesOrStays toy "check_execution" (obj (dict execution_fields)) (str "Ann")
      reviewed_entries the_state 9 false
      (held (asked "check_execution" execution_fields "Ann" reviewed_entries false))
      check_execution_is_accepted
      (step_entry "check_execution"
        (held (asked "check_execution" execution_fields "Ann" reviewed_entries false)).0)
      refl refl "r1" "CHK-NETWORK-LOGS"
