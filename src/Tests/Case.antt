-- ===== src/Tests/Case.antt =====
-- One case: a run, an accepted check, its execution, a decision, the action and its outcome.
use veyra_demo.Ledger.Chain.{build_entry}
use veyra_demo.Ledger.Entry.{Entry}
use veyra_demo.Ledger.Request.{State, Validated}
use veyra_demo.Ledger.Validate.{validate}
use veyra_demo.Prelude.{Bool, List, String, [], false, if◌then◌else◌, none, true, ◌==◌, ◌∷◌}
use veyra_demo.Python.Result.{Result, err, ok}
use veyra_demo.Python.Value.{Dict, Value, arr, bool, dict, empty, obj, of_items, str, texts}
use veyra_demo.Tests.Toy.{toy}

abbrev made : String → String → String → List (String × Value) → List String → String → Entry
made id kind actor payload links prev =
    build_entry toy id "case" kind actor "console" 1 (dict payload) links prev

abbrev pub belief_value : Value
belief_value = arr (
    of_items (
      obj (
        dict (
          ("domain", str "network")
          ∷ ("status", str "supported")
          ∷ ("observation_rules", texts ("late_reply" ∷ []))
          ∷ []))
      ∷ []))

abbrev pub candidates_value : Value
candidates_value = arr (
    of_items (
      obj (
        dict (
          ("check_id", str "CHK-NETWORK-LOGS")
          ∷ ("question", str "Any link drops?")
          ∷ ("domains", texts ("network" ∷ []))
          ∷ []))
      ∷ obj (
          dict (
            ("check_id", str "CHK-CMD-CHAIN")
            ∷ ("question", str "Does the command reach the machine?")
            ∷ ("domains", texts ("control_suite" ∷ []))
            ∷ []))
      ∷ []))

abbrev pub run_payload : Dict
run_payload = dict (
    ("run_id", str "r1")
    ∷ ("run_hash", str "h")
    ∷ ("input_hashes", obj (dict (("imp", str "sha") ∷ [])))
    ∷ ("context_hash_current", str "ctx")
    ∷ ("belief", belief_value)
    ∷ ("candidates", candidates_value)
    ∷ ("goal", str "find it")
    ∷ ("policy_versions", str "v1")
    ∷ [])

abbrev pub the_run : Entry
the_run =
    build_entry toy "run" "case" "investigation_run" "Veyra" "engine" 1 run_payload [] "GENESIS"

abbrev pub the_review : Entry
the_review =
    made "review" "check_review" "Ann"
      (("run_id", str "r1")
        ∷ ("check_id", str "CHK-NETWORK-LOGS")
        ∷ ("verdict", str "accepted")
        ∷ ("reason", str "do it")
        ∷ (
          "proposed",
          obj (
              dict
                (("question", str "Any link drops?") ∷ ("domains", texts ("network" ∷ [])) ∷ [])),
        )
        ∷ [])
      ("run" ∷ []) "#run"

abbrev pub the_execution : Entry
the_execution =
    made "execution" "check_execution" "Ann"
      (("run_id", str "r1")
        ∷ ("check_id", str "CHK-NETWORK-LOGS")
        ∷ ("status", str "performed")
        ∷ ("review_id", str "review")
        ∷ ("procedure", str "Any link drops?")
        ∷ [])
      ("run" ∷ "review" ∷ []) "#review"

abbrev pub the_action : Entry
the_action =
    made "action" "action" "Ann"
      (("decision_id", str "decision")
        ∷ ("action_type", str "network_change")
        ∷ ("description", str "new antenna")
        ∷ ("status", str "performed")
        ∷ ("performed_at", str "11+")
        ∷ ("performer", str "Ann")
        ∷ [])
      ("decision" ∷ []) "#execution"

abbrev pub the_outcome : Entry
the_outcome =
    made "outcome" "outcome" "Ann"
      (("action_id", str "action") ∷ ("result", str "recovered") ∷ ("simulated", bool false) ∷ [])
      ("action" ∷ []) "#action"

abbrev pub the_proposal : Entry
the_proposal =
    made "proposal" "normal_proposal" "Ann" (("run_id", str "r1") ∷ ("scope", str "machine") ∷ [])
      ("run" ∷ []) "#outcome"

abbrev pub reviewed_entries : List Entry
reviewed_entries = the_run ∷ the_review ∷ []

abbrev pub all_entries : List Entry
all_entries = the_run ∷ the_review ∷ the_execution ∷ the_action ∷ the_outcome ∷ the_proposal ∷ []

abbrev pub the_state : State
the_state = record {
  input_hashes = dict (("imp", str "sha") ∷ []);
  context_hash_current = "ctx";
  import_ids = "imp" ∷ [];
  import_sample_times = ("imp", 4 ∷ []) ∷ [];
  symptom_window = none;
  synthetic = false;
}

-- the answer of `validate` to a person
abbrev pub asked : String → List (String × Value) → String → List Entry → Bool → Result Validated
asked kind payload actor es trusted =
    validate toy kind (obj (dict payload)) (str actor) es the_state 9 trusted

-- what an answer holds
abbrev pub held : Result Validated → Validated
held (ok v) = v
held (err e) = (empty, [])

abbrev pub execution_fields : List (String × Value)
execution_fields =
    ("run_id", str "r1")
    ∷ ("check_id", str "CHK-NETWORK-LOGS")
    ∷ ("status", str "performed")
    ∷ ("executed_at", str "111+")
    ∷ ("performer", str "Ann")
    ∷ ("observations", str "link dropped twice")
    ∷ ("evidence", texts ("imp" ∷ []))
    ∷ ("outcome", str "network_event")
    ∷ []

abbrev pub outcome_fields : List (String × Value)
outcome_fields =
    ("action_id", str "action")
    ∷ ("result", str "recovered")
    ∷ ("observed_from", str "111+")
    ∷ ("observed_to", str "11111+")
    ∷ ("verification", str "evidence_attached")
    ∷ ("evidence", texts ("imp" ∷ []))
    ∷ ("observations", str "runs again")
    ∷ []

abbrev pub decision_fields : List (String × Value)
decision_fields =
    ("run_id", str "r1")
    ∷ ("options_considered", texts ("wait" ∷ "send someone" ∷ []))
    ∷ ("chosen_option", str "wait")
    ∷ ("rationale", str "no risk")
    ∷ []

abbrev pub closure_fields : List (String × Value)
closure_fields =
    ("investigation_status", str "cause_confirmed")
    ∷ ("confirmed_by", str "inspection")
    ∷ ("evidence_entries", texts ("execution" ∷ []))
    ∷ ("resolution_status", str "resolved")
    ∷ ("cause_domain", str "network")
    ∷ ("cause", str "weak antenna")
    ∷ []

abbrev pub review_fields : String → List (String × Value)
review_fields key =
    (key, str (if key == "outcome_id" then "outcome" else "proposal"))
    ∷ ("verdict", str (if key == "outcome_id" then "accepted" else "approved"))
    ∷ ("reason", str "seen it")
    ∷ []

abbrev pub proposal_fields : List (String × Value)
proposal_fields =
    ("run_id", str "r1")
    ∷ ("action", str "remote_fix")
    ∷ ("purpose", str "diagnose")
    ∷ ("proposed_by", str "veyra")
    ∷ []

abbrev pub is_accepted : Result Validated → Bool
is_accepted (ok v) = true
is_accepted (err e) = false
