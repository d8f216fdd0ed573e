-- ===== src/Tests/History.antt =====
-- A store: a run, a review, a refused write and an execution, one after another.
use veyra_demo.Context.Resolve.{resolve}
use veyra_demo.Engine.Outcomes.{outcome_names}
use veyra_demo.Ledger.Chain.{build_entry, head_hash, verify_chain, verify_from}
use veyra_demo.Ledger.Entry.{Entry}
use veyra_demo.Ledger.Lifecycle.{
  answered, check_state, check_state_from, check_step, may_act, require_check_transition,
  transition,
}
use veyra_demo.Ledger.Payload.{
  choice, choice_if, id_list, read_choice, read_ids, read_moment, read_text, text, text_if, time,
}
use veyra_demo.Ledger.Progress.{decision_state, state_outcome_recorded, state_verified}
use veyra_demo.Ledger.Progress.Onward.{level}
use veyra_demo.Ledger.Request.{find, latest_run, require_current_run, run_entry}
use veyra_demo.Ledger.Rules.Trust.{IsHuman}
use veyra_demo.Ledger.Validate.{dispatch, require_actor, validate}
use veyra_demo.Ledger.Validate.Checks.{
  allowed_outcomes, any_review, candidate, check_execution, check_review, edited_procedure,
  execution_result, guard_answered, guard_automatic, is_review_of, performed_result, procedure_of,
  read_outcome, standing_review,
}
use veyra_demo.Ledger.Validate.Machine.{investigation_run, require_keys}
use veyra_demo.Ledger.Validate.Outcomes.{outcome_review}
use veyra_demo.Prelude.{List, String, [], false, none, refl, ◌++◌, ◌∷◌, ◌≡◌, ◌≢◌, ◌≤◌}
use veyra_demo.Python.Result.{Result, err, integrity_error, ok, select}
use veyra_demo.Python.Text.{char_count, lstrip, replace_z, rstrip, strip}
use veyra_demo.Python.Value.{Value, arr, dict, last_with, obj, of_items, str, value_eq}
use veyra_demo.Store.Append.{
  Fresh, Write, append, append_locked, append_run, append_trusted, insert_run, new_entry,
  write_transaction,
}
use veyra_demo.Store.Automatic.{
  Tools, automatic_answer, bare_signal, brief_events, compute_automatic, execute_automatic,
  execute_locked, guard_ready, latest_run_of, run_tool,
}
use veyra_demo.Store.Calls.{AllOrNothing, append-AllOrNothing, append-IsHuman}
use veyra_demo.Store.History.{Reach, by_person, by_run, by_tool, continue, start}
use veyra_demo.Store.History.Answered.{CheckPath, Reach-CheckPath, Reach-answered}
use veyra_demo.Store.History.Decided.{Reach-decision_state}
use veyra_demo.Store.History.Sound.{IsSound, Reach-IsSound, Reach-append_only}
use veyra_demo.Store.Tables.{
  Case, Db, Import, RunRow, Services, case_of, comes_before, context_of, find_case, imports_of,
  insert_import, is_intact, ledger_of, order_imports, state_of,
}
use veyra_demo.Tests.Case.{all_entries, execution_fields, review_fields, run_payload, the_run}
use veyra_demo.Tests.Toy.{parse_from, toy, toy_isoformat}

abbrev services : Services
services = record {
  platform = toy;
  sha256 = λ _. "sha";
  rows_sha256 = λ _. "rows";
  context_digest = λ _ _. "ctx";
}

abbrev the_import : Import
the_import = record {
  id = "imp";
  case_id = "case";
  sha256 = "sha";
  content = [];
  rows = record { t = 4; fields = dict [] } ∷ [];
  normalized_sha256 = "rows";
  created_at = "1";
}

abbrev the_case : Case
the_case = record {
  id = "case";
  machine_id = "m";
  title = "t";
  fault_type = "f";
  synthetic = false;
  created_at = "1";
  created_by = "Ann";
  symptom = none;
}

abbrev opened : Db
opened = record {
  cases = the_case ∷ [];
  imports = the_import ∷ [];
  assertions = [];
  runs = [];
  ledger = [];
  in_transaction = false;
}

abbrev at_time : String → Fresh
at_time id = record { entry_id = id; now = 9; recorded_at = 9 }

abbrev write_of : String → List (String × Value) → Write
write_of kind fields = record {
  case_id = "case";
  kind = kind;
  payload = obj (dict fields);
  actor = str "Ann";
  source = "console";
}

abbrev review_write : Write
review_write = write_of "check_review" (
    ("run_id", str "r1")
    ∷ ("check_id", str "CHK-NETWORK-LOGS")
    ∷ ("verdict", str "accepted")
    ∷ ("reason", str "do it")
    ∷ [])

abbrev run_row : RunRow
run_row = record {
  id = "r1";
  case_id = "case";
  body = dict (
      ("id", str "r1")
      ∷ ("input_hashes", obj (dict (("imp", str "sha") ∷ [])))
      ∷ ("findings", obj (dict (("command_chain", str "complete") ∷ [])))
      ∷ (
        "checks",
        arr (
            of_items (
              obj (
                dict (
                  ("check_id", str "CHK-CMD-CHAIN")
                  ∷ ("mode", str "automatic_read_only")
                  ∷ ("availability", obj (dict (("state", str "answered_in_run") ∷ [])))
                  ∷ []))
              ∷ [])),
      )
      ∷ []);
}

abbrev toy_tools : Tools
toy_tools = record { window_rows = λ _ _. ok (dict []); result_digest = λ _. "digest" }

abbrev after_run : Db
after_run = (append_run services (at_time "run") run_row run_payload (str "Veyra") opened).1

abbrev after_review : Db
after_review = (append services (at_time "review") review_write after_run).1

-- the second use of an id fails
abbrev after_refusal : Db
after_refusal = (append services (at_time "review") review_write after_review).1

abbrev after_execution : Db
after_execution =
    (append services (at_time "execution") (write_of "check_execution" execution_fields)
      after_refusal).1

-- an accepted check that Veyra runs itself, twice
abbrev chain_review : Write
chain_review = write_of "check_review" (
    ("run_id", str "r1")
    ∷ ("check_id", str "CHK-CMD-CHAIN")
    ∷ ("verdict", str "accepted")
    ∷ ("reason", str "read only")
    ∷ [])

abbrev after_tool : Db
after_tool =
    (execute_automatic services toy_tools (at_time "tool") "case" "CHK-CMD-CHAIN" (str "Veyra")
      (append services (at_time "chain") chain_review after_execution).1).1

abbrev after_repeat : Db
after_repeat =
    (execute_automatic services toy_tools (at_time "again") "case" "CHK-CMD-CHAIN" (str "Veyra")
      after_tool).1

the_history : Reach services opened after_execution
the_history =
    continue
      (continue
        (continue (continue start (by_run (at_time "run") run_row run_payload (str "Veyra") refl))
          (by_person (at_time "review") review_write refl))
        (by_person (at_time "review") review_write refl))
      (by_person (at_time "execution") (write_of "check_execution" execution_fields) refl)

full_history : Reach services opened after_repeat
full_history =
    continue
      (continue (continue the_history (by_person (at_time "chain") chain_review refl))
        (by_tool toy_tools (at_time "tool") "case" "CHK-CMD-CHAIN" (str "Veyra") refl))
      (by_tool toy_tools (at_time "again") "case" "CHK-CMD-CHAIN" (str "Veyra") refl)

empty-IsSound : IsSound toy []
unfolding verify_chain verify_from
empty-IsSound = record { chains = λ c. refl; linked = tt }

Reach-IsSound_example : IsSound toy after_repeat.ledger
Reach-IsSound_example = Reach-IsSound services opened after_repeat empty-IsSound full_history

Reach-append_only_example : (more : List Entry) × (after_repeat.ledger ≡ opened.ledger ++ more)
Reach-append_only_example = Reach-append_only services opened after_repeat full_history

Reach-CheckPath_example :
    CheckPath
      (check_state (ledger_of opened "case") (str "r1") "CHK-CMD-CHAIN")
      (check_state (ledger_of after_repeat "case") (str "r1") "CHK-CMD-CHAIN")
Reach-CheckPath_example =
    Reach-CheckPath services opened after_repeat full_history "case" "r1" "CHK-CMD-CHAIN"

append-AllOrNothing_example :
    AllOrNothing review_write after_run (append services (at_time "review") review_write after_run)
append-AllOrNothing_example = append-AllOrNothing services (at_time "review") review_write after_run

execution_is_stored :
    check_state (ledger_of after_execution "case") (str "r1") "CHK-NETWORK-LOGS" ≡ answered
unfolding value_eq append append_run append_trusted write_transaction append_locked case_of
    find_case ledger_of state_of context_of resolve imports_of order_imports insert_import
    comes_before is_intact verify_chain verify_from head_hash validate dispatch require_actor strip
    lstrip rstrip char_count require_current_run run_entry latest_run find build_entry text
    read_text text_if choice read_choice choice_if id_list read_ids time read_moment replace_z
    parse_from toy_isoformat investigation_run require_keys check_review candidate last_with
    edited_procedure check_execution any_review is_review_of standing_review guard_answered
    guard_automatic procedure_of execution_result performed_result read_outcome allowed_outcomes
    outcome_names transition require_check_transition check_state check_state_from check_step
    may_act select new_entry insert_run
execution_is_stored = refl

second_use_is_refused :
    (append services (at_time "review") review_write after_review).0
    ≡ err (integrity_error "UNIQUE constraint failed: ledger.id")
unfolding value_eq append append_run append_trusted write_transaction append_locked case_of
    find_case ledger_of state_of context_of resolve imports_of order_imports insert_import
    comes_before is_intact verify_chain verify_from head_hash validate dispatch require_actor strip
    lstrip rstrip char_count require_current_run run_entry latest_run find build_entry text
    read_text text_if choice read_choice choice_if id_list read_ids time read_moment replace_z
    parse_from toy_isoformat investigation_run require_keys check_review candidate last_with
    edited_procedure check_execution any_review is_review_of standing_review guard_answered
    guard_automatic procedure_of execution_result performed_result read_outcome allowed_outcomes
    outcome_names transition require_check_transition check_state check_state_from check_step
    may_act select new_entry insert_run
second_use_is_refused = refl

-- the entry that a call returns
abbrev entry_of : Result Entry → Entry
entry_of (ok e) = e
entry_of (err e) = the_run

review_is_written :
    (append services (at_time "review") review_write after_run).0
    ≡ ok (entry_of (append services (at_time "review") review_write after_run).0)
unfolding value_eq append append_run append_trusted write_transaction append_locked case_of
    find_case ledger_of state_of context_of resolve imports_of order_imports insert_import
    comes_before is_intact verify_chain verify_from head_hash validate dispatch require_actor strip
    lstrip rstrip char_count require_current_run run_entry latest_run find build_entry text
    read_text text_if choice read_choice choice_if id_list read_ids time read_moment replace_z
    parse_from toy_isoformat investigation_run require_keys check_review candidate last_with
    edited_procedure check_execution any_review is_review_of standing_review guard_answered
    guard_automatic procedure_of execution_result performed_result read_outcome allowed_outcomes
    outcome_names transition require_check_transition check_state check_state_from check_step
    may_act select new_entry insert_run
review_is_written = refl

-- a decision whose action and outcome are recorded, and a review of the outcome
abbrev with_outcome : Db
with_outcome = record opened { ledger = all_entries }

abbrev outcome_verdict : Write
outcome_verdict = record {
  case_id = "case";
  kind = "outcome_review";
  payload = obj (dict (review_fields "outcome_id"));
  actor = str "Bob";
  source = "console";
}

abbrev with_verdict : Db
with_verdict = (append services (at_time "verdict") outcome_verdict with_outcome).1

verdict_moves_decision :
    (decision_state (ledger_of with_outcome "case") "decision" ≡ state_outcome_recorded)
    × (decision_state (ledger_of with_verdict "case") "decision" ≡ state_verified)
unfolding value_eq append append_run append_trusted write_transaction append_locked new_entry
    insert_run case_of find_case ledger_of state_of context_of resolve imports_of order_imports
    insert_import comes_before is_intact verify_chain verify_from head_hash validate dispatch
    require_actor strip lstrip rstrip char_count require_current_run run_entry latest_run find
    build_entry text read_text text_if choice read_choice choice_if id_list read_ids time
    read_moment replace_z parse_from toy_isoformat investigation_run require_keys check_review
    candidate last_with edited_procedure check_execution any_review is_review_of standing_review
    guard_answered guard_automatic procedure_of execution_result performed_result read_outcome
    allowed_outcomes outcome_names transition require_check_transition check_state check_state_from
    check_step may_act select outcome_review decision_state
verdict_moves_decision = (refl, refl)

Reach-decision_state_example :
    level (decision_state (ledger_of with_outcome "case") "decision")
    ≤ level (decision_state (ledger_of with_verdict "case") "decision")
Reach-decision_state_example =
    Reach-decision_state services with_outcome with_verdict
      (continue start (by_person (at_time "verdict") outcome_verdict refl)) "case" "decision"

tool_answers_check : check_state (ledger_of after_tool "case") (str "r1") "CHK-CMD-CHAIN" ≡ answered
unfolding value_eq append append_run append_trusted write_transaction append_locked new_entry
    insert_run case_of find_case ledger_of state_of context_of resolve imports_of order_imports
    insert_import comes_before is_intact verify_chain verify_from head_hash validate dispatch
    require_actor strip lstrip rstrip char_count require_current_run run_entry latest_run find
    build_entry text read_text text_if choice read_choice choice_if id_list read_ids time
    read_moment replace_z parse_from toy_isoformat investigation_run require_keys check_review
    candidate last_with edited_procedure check_execution any_review is_review_of standing_review
    guard_answered guard_automatic procedure_of execution_result performed_result read_outcome
    allowed_outcomes outcome_names transition require_check_transition check_state check_state_from
    check_step may_act select execute_automatic execute_locked automatic_answer compute_automatic
    run_tool guard_ready latest_run_of bare_signal brief_events
tool_answers_check = refl

Reach-answered_example :
    check_state (ledger_of after_repeat "case") (str "r1") "CHK-CMD-CHAIN" ≡ answered
Reach-answered_example =
    Reach-answered services after_tool after_repeat
      (continue start
        (by_tool toy_tools (at_time "again") "case" "CHK-CMD-CHAIN" (str "Veyra") refl))
      "case" "r1" "CHK-CMD-CHAIN" tool_answers_check

append-IsHuman_example :
    let e = entry_of (append services (at_time "review") review_write after_run).0 in
    IsHuman e.kind e.payload × (e.kind ≢ "investigation_run")
append-IsHuman_example =
    append-IsHuman services (at_time "review") review_write after_run
      (entry_of (append services (at_time "review") review_write after_run).0) review_is_written
