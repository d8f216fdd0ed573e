-- ===== src/Store/Automatic.antt =====
-- Automatic results: `execute_automatic` and `_execute_automatic_locked` of `CaseStore`, and `latest_run`.
-- From outside of the model: the numerical tool `window_rows` of the engine over the case's rows, and the
-- SHA-256 of a result's JSON.
use veyra_demo.Ledger.Entry.{Entry}
use veyra_demo.Ledger.Validate.{validate}
use veyra_demo.Prelude.{
  Bool, List, Option, String, [], false, if◌then◌else◌, keep, last?, none, not, some, true, ◌&&◌,
  ◌++◌, ◌==◌, ◌||◌, ◌∷◌,
}
use veyra_demo.Python.Result.{
  Result, attribute_error, err, ok, or_raise, raise_if, select, store_error, traverse, type_error,
  ◌>>=◌, ◌>>◌,
}
use veyra_demo.Python.Text.{◌&◌}
use veyra_demo.Python.Value.{
  Dict, Value, arr, bool, dict, empty, entry, get, insert, is_str, item, iterate, obj, of_items,
  str, subscript, value_eq,
}
use veyra_demo.Store.Append.{Action, Fresh, Write, append_locked, write_transaction}
use veyra_demo.Store.Tables.{Db, Import, RunRow, Services, case_of, imports_of, ledger_of, state_of}

-- `engine.window_rows` over the files of the case, and the digest of a result.
pub record Tools : Type 0 where
  pub window_rows : Dict → List Import → Result Dict
  pub result_digest : Dict → String

-- `latest_run(case_id)`
unfoldable pub latest_run_of : Db → String → Option RunRow
latest_run_of db case_id = last? (keep (λ (r : RunRow). r.case_id == case_id) db.runs)

-- an automatic result of a check in a run
abbrev pub is_automatic_on : Value → String → Entry → Result Bool
is_automatic_on run_id check_id e =
    if e.kind == "check_execution" && value_eq (get "run_id" e.payload) run_id
    then (do
      check ← item "check_id" e.payload
      if is_str check_id check
          then (do status ← item "status" e.payload; ok (is_str "automatic_read_only" status))
          else ok false)
    else ok false

-- `next((c for c in run["checks"] if c["check_id"] == check_id), None)`
abbrev pub first_check : String → List Value → Result (Option Value)
first_check check_id [] = ok none
first_check check_id (c ∷ cs) = do
  i ← subscript "check_id" c
  let rest = first_check check_id cs
  if is_str check_id i then ok (some c) else rest

-- an event of the finding without its context, and a signal with such events
abbrev pub without_context : Dict → Dict
without_context empty = empty
without_context (entry k v d) =
    if k == "context" then without_context d else entry k v (without_context d)

abbrev bare_event : Value → Result Value
bare_event (obj d) = ok (obj (without_context d))
bare_event _ = err attribute_error

unfoldable pub bare_signal : Value → Result Value
unfolding traverse
bare_signal (obj d) = do
  events ← item "events" d
  listed ← iterate events
  bare ← traverse bare_event listed
  ok (obj (insert "events" (arr (of_items bare)) d))
bare_signal _ = err type_error

abbrev tool_result : String → Value → List (String × Value) → Dict
tool_result tool finding more =
    dict (("tool", str tool) ∷ ("answered_in_run", bool true) ∷ more ++ ("finding", finding) ∷ [])

-- `{**finding, "signals": […]}`
unfoldable pub brief_events : Value → Result Dict
unfolding bare_signal traverse
brief_events (obj finding) = do
  total ← item "events_total" finding
  signals ← item "signals" finding
  listed ← iterate signals
  bare ← traverse bare_signal listed
  ok (
      tool_result "transients" (obj (insert "signals" (arr (of_items bare)) finding))
        (("count", total) ∷ []))
brief_events _ = err type_error

-- The tool of a check; its result.
unfoldable pub run_tool : Tools → String → Dict → List Import → Result Dict
unfolding brief_events
run_tool t check_id run imports =
    if check_id == "CHK-SOURCE-ROWS"
    then t.window_rows run imports
    else if check_id == "CHK-CMD-CHAIN"
    then (do
      findings ← item "findings" run
      finding ← subscript "command_chain" findings
      ok (tool_result "command_chain" finding []))
    else if check_id == "CHK-BRIEF-EVENTS"
    then (do
      findings ← item "findings" run
      finding ← subscript "transients" findings
      brief_events finding)
    else if check_id == "CHK-IO-BASELINE"
    then (do
      findings ← item "findings" run
      finding ← subscript "input_response" findings
      ok (tool_result "input_response" finding []))
    else err (store_error "Automatic tool is not allowlisted")

-- the payload of the entry
abbrev pub automatic_payload : Value → String → Value → Dict
automatic_payload run_id check_id result = dict (
    ("run_id", run_id)
    ∷ ("check_id", str check_id)
    ∷ ("status", str "automatic_read_only")
    ∷ ("tool_result", result)
    ∷ [])

-- What stands before the append: a result that is there already, or a new one.
pub data Automatic : Type 0 where
  already : Entry → Automatic
  computed : Dict → Automatic

-- the check may run: it is automatic, and ready or answered in the run
unfoldable pub guard_ready : String → Option Value → Result (Unit {0})
guard_ready check_id none = err (
    store_error
      (check_id & " is not an automatic read-only check; record its manual execution instead"))
guard_ready check_id (some check) = do
  mode ← subscript "mode" check
  raise_if (not (is_str "automatic_read_only" mode)) (
      store_error
        (check_id & " is not an automatic read-only check; record its manual execution instead"))
  availability ← subscript "availability" check
  state ← subscript "state" availability
  raise_if (not (is_str "ready_automatic" state || is_str "answered_in_run" state))
      (store_error (check_id & " cannot run now"))

-- a new result, for a run without one
unfoldable pub compute_automatic :
    Services → Tools → Fresh → String → String → Value → Dict → Value → Db → Result Automatic
unfolding guard_ready run_tool
compute_automatic s t f case_id check_id actor run run_id db = do
  checks ← item "checks" run
  listed ← iterate checks
  check ← first_check check_id listed
  guard_ready check_id check
  c ← case_of db case_id
  state ← state_of s f.now db c
  validate s.platform "check_execution" (obj (automatic_payload run_id check_id (obj empty))) actor
      (ledger_of db case_id) state f.now true
  result ← run_tool t check_id run (imports_of db case_id)
  tool ← item "tool" result
  hashes ← item "input_hashes" run
  ok (
      computed (
        automatic_payload run_id check_id (
          obj (
            dict (
              ("tool", tool)
              ∷ ("digest", str (t.result_digest result))
              ∷ ("count", get "count" result)
              ∷ ("run_id", run_id)
              ∷ ("check_id", str check_id)
              ∷ ("input_hashes", hashes)
              ∷ [])))))

unfoldable pub automatic_answer :
    Services → Tools → Fresh → String → String → Value → Db → Result Automatic
unfolding compute_automatic select latest_run_of
automatic_answer s t f case_id check_id actor db = do
  row ← or_raise (latest_run_of db case_id) (store_error "Investigate first")
  run_id ← item "id" row.body
  existing ← select (is_automatic_on run_id check_id) (ledger_of db case_id)
  elim (last? existing) [
    | some e ↦ item "tool_result" e.payload >>= λ v. ok (already e)
    | none ↦ compute_automatic s t f case_id check_id actor row.body run_id db
  ]

abbrev pub automatic_write : String → Dict → Value → Write
automatic_write case_id payload actor = record {
  case_id = case_id;
  kind = "check_execution";
  payload = obj payload;
  actor = actor;
  source = "veyra://read-only-tool";
}

abbrev pub finish_automatic : Services → Fresh → String → Value → Result Automatic → Action Entry
finish_automatic s f case_id actor (err x) db = (err x, db)
finish_automatic s f case_id actor (ok (already e)) db = (ok e, db)
finish_automatic s f case_id actor (ok (computed payload)) db =
    append_locked s f true (automatic_write case_id payload actor) db

-- `_execute_automatic_locked(case_id, check_id, actor=…)`, of whose answer the model keeps the entry
unfoldable pub execute_locked : Services → Tools → Fresh → String → String → Value → Action Entry
unfolding automatic_answer append_locked
execute_locked s t f case_id check_id actor db =
    finish_automatic s f case_id actor (automatic_answer s t f case_id check_id actor db) db

-- `execute_automatic(case_id, check_id, actor=…)`
unfoldable pub execute_automatic : Services → Tools → Fresh → String → String → Value → Action Entry
unfolding write_transaction execute_locked
execute_automatic s t f case_id check_id actor =
    write_transaction (execute_locked s t f case_id check_id actor)
