-- ===== src/Ledger/Validate/Machine.antt =====
-- The branches of `validate` for investigation runs and for the records that only Veyra's own
-- connectors and agent may write.
use veyra_demo.Ledger.Platform.{Platform}
use veyra_demo.Ledger.Request.{Request, Validated, find, require_current_run, run_entry}
use veyra_demo.Prelude.{List, String, [], if◌then◌else◌, not, ◌∷◌}
use veyra_demo.Python.Result.{Error, Result, err, ledger_error, ok, raise_if, ◌>>=◌, ◌>>◌}
use veyra_demo.Python.Text.{◌&◌}
use veyra_demo.Python.Value.{Dict, get, has}

abbrev run_keys : List String
run_keys =
    "run_id" ∷ "run_hash" ∷ "input_hashes" ∷ "context_hash_current" ∷ "belief" ∷ "candidates"
    ∷ "goal" ∷ "policy_versions" ∷ []

-- `for key in (…): if key not in payload: raise`
unfoldable pub require_keys : List String → Dict → Result (Unit {0})
require_keys [] payload = ok tt
require_keys (k ∷ ks) payload =
    if has k payload
    then require_keys ks payload
    else err (ledger_error ("investigation_run requires '" & k & "'"))

unfoldable pub investigation_run : Platform → Request → Dict → Result Validated
unfolding require_keys
investigation_run p r payload = do require_keys run_keys payload; ok (payload, [])

abbrev pub machine_only : String → Error
machine_only kind =
    ledger_error ("'" & kind & "' records can only be generated by Veyra's connectors and agent")

-- `acquisition`, `trigger_event`: no link
unfoldable pub machine_record : String → Platform → Request → Dict → Result Validated
machine_record kind p r payload = do
  raise_if (not r.trusted_automatic) (machine_only kind)
  ok (payload, [])

-- `agent_report`, `next_action`, `evidence_discovery`: linked to the current run
unfoldable pub run_record : String → Platform → Request → Dict → Result Validated
run_record kind p r payload = do
  raise_if (not r.trusted_automatic) (machine_only kind)
  run ← require_current_run r (get "run_id" payload)
  ok (payload, run.id ∷ [])

unfoldable pub decision_check : Platform → Request → Dict → Result Validated
decision_check p r payload = do
  raise_if (not r.trusted_automatic) (machine_only "decision_check")
  run ← run_entry r.entries (get "run_id" payload)
  proposal ← find r.entries (get "proposal_id" payload) "decision_proposal"
  ok (payload, run.id ∷ proposal.id ∷ [])
