-- ===== src/Ledger/Request.antt =====
-- The case state that `validate` is given, and `_find`, `_latest_run`, `_run_entry` and
-- `_require_current_run` of backend/app/ledger/model.py.
use veyra_demo.Ledger.Entry.{Entry}
use veyra_demo.Prelude.{
  Bool, List, Option, String, [], false, if◌then◌else◌, is_nil, keep, last?, none, not, some, true,
  ℕ, ◌&&◌, ◌==◌, ◌∷◌,
}
use veyra_demo.Python.Result.{Result, err, ledger_error, ok, raise_if, ◌>>=◌, ◌>>◌}
use veyra_demo.Python.Text.{join, ◌&◌}
use veyra_demo.Python.Value.{Dict, Value, get, is_str, item, obj, str, value_eq}

-- The dictionary that `CaseStore._state` builds (backend/app/store/sqlite_store.py). Times are in
-- microseconds.
pub record State : Type 0 where
  pub input_hashes : Dict
  pub context_hash_current : String
  pub import_ids : List String
  pub import_sample_times : List (String × List ℕ)
  pub symptom_window : Option (ℕ × ℕ)
  pub synthetic : Bool

-- The arguments of `validate` other than the kind and the payload.
pub record Request : Type 0 where
  pub actor : String
  pub entries : List Entry
  pub state : State
  pub now : ℕ
  pub trusted_automatic : Bool

-- the text that `validate` has found the actor to be
abbrev pub actor_text : Value → String
actor_text (str s) = s
actor_text _ = ""

abbrev pub request : Value → List Entry → State → ℕ → Bool → Request
request actor es state now trusted = record {
  actor = actor_text actor;
  entries = es;
  state = state;
  now = now;
  trusted_automatic = trusted;
}

-- What `validate` returns: the normalized payload and the links.
abbrev pub Validated : Type 0
Validated = Dict × List String

unfoldable pub find : List Entry → Value → String → Result Entry
find [] entry_id kind = err (ledger_error ("Linked " & kind & " not found in this case"))
find (e ∷ es) entry_id kind =
    let rest = find es entry_id kind in
    if is_str e.id entry_id && e.kind == kind then ok e else rest

abbrev pub is_run : Entry → Bool
is_run e = e.kind == "investigation_run"

unfoldable pub latest_run : List Entry → Option Entry
latest_run entries = last? (keep is_run entries)

unfoldable pub run_entry : List Entry → Value → Result Entry
run_entry [] run_id = err (ledger_error "Investigation run not found in this case")
run_entry (e ∷ es) run_id =
    let rest = run_entry es run_id in
    if is_run e && value_eq (get "run_id" e.payload) run_id then ok e else rest

-- The reasons why a run is stale.
abbrev pub staleness : Bool → Bool → List String
staleness true true = []
staleness true false = "machine context changed" ∷ []
staleness false true = "evidence changed" ∷ []
staleness false false = "evidence changed" ∷ "machine context changed" ∷ []

abbrev pub is_latest : Option Entry → Entry → Bool
is_latest none run = false
is_latest (some latest) run = latest.id == run.id

unfoldable pub require_current_run : Request → Value → Result Entry
unfolding run_entry latest_run
require_current_run r run_id = do
  run ← run_entry r.entries run_id
  raise_if (not (is_latest (latest_run r.entries) run))
      (ledger_error "This refers to an older investigation run. Use the latest run.")
  inputs ← item "input_hashes" run.payload
  context ← item "context_hash_current" run.payload
  let stale =
      staleness (value_eq inputs (obj r.state.input_hashes))
        (value_eq context (str r.state.context_hash_current))
  raise_if (not (is_nil stale)) (
      ledger_error (
        "Run is stale ("
        & join ", " stale
        & "). Investigate again before reviewing, executing or deciding."))
  ok run
