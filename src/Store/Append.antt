-- ===== src/Store/Append.antt =====
-- Ledger writes: `_write_transaction`, `_append_locked`, `append` and `append_trusted` of
-- `CaseStore`, and the run entry that `_investigate_locked` writes.
use veyra_demo.Ledger.Chain.{build_entry, head_hash, is_valid, verify_chain}
use veyra_demo.Ledger.Entry.{Entry, ids}
use veyra_demo.Ledger.Request.{actor_text}
use veyra_demo.Ledger.Validate.{validate}
use veyra_demo.Prelude.{
  Bool, List, String, [], elem, false, if◌then◌else◌, map, not, true, ℕ, ◌++◌, ◌==◌, ◌∷◌,
}
use veyra_demo.Python.Result.{
  Result, err, integrity_error, ledger_error, ok, raise_if, store_error, ◌>>=◌, ◌>>◌,
}
use veyra_demo.Python.Text.{◌&◌}
use veyra_demo.Python.Value.{Dict, Value, obj}
use veyra_demo.Store.Tables.{Db, RunRow, Services, case_of, ledger_of, state_of}

-- A call on the connection: the tables come back also after an exception.
abbrev pub Action : Type 0 → Type 0
Action A = Db → Result A × Db

-- the end of `_write_transaction`: commit what the body left, or roll back to the tables before it
abbrev pub end_transaction : {A : Type 0} → Db → Result A × Db → Result A × Db
end_transaction before (ok a, after) = (ok a, record after { in_transaction = false })
end_transaction before (err e, after) = (err e, before)

-- `with self._write_transaction(): body`; the body may leave changed tables and raise.
unfoldable pub write_transaction : {A : Type 0} → Action A → Action A
write_transaction body db =
    if db.in_transaction
    then (err (store_error "An explicit write transaction is already active"), db)
    else end_transaction db (body (record db { in_transaction = true }))

-- What the clock and the id generator give one call.
pub record Fresh : Type 0 where
  pub entry_id : String
  pub now : ℕ
  pub recorded_at : ℕ

-- The arguments of a ledger write.
pub record Write : Type 0 where
  pub case_id : String
  pub kind : String
  pub payload : Value
  pub actor : Value
  pub source : String

-- `_append_locked` up to the insertion
unfoldable pub new_entry : Services → Fresh → Bool → Write → Db → Result Entry
new_entry s f trusted w db = do
  raise_if (not db.in_transaction)
      (store_error "Ledger append requires an explicit write transaction")
  c ← case_of db w.case_id
  let entries = ledger_of db w.case_id
  raise_if (not (is_valid (verify_chain s.platform entries)))
      (store_error "Existing ledger integrity check failed; append refused")
  state ← state_of s f.now db c
  validated ← validate s.platform w.kind w.payload w.actor entries state f.now trusted
  ok (
      build_entry s.platform f.entry_id w.case_id w.kind (actor_text w.actor) w.source f.recorded_at
        validated.0 validated.1 (head_hash entries))

-- `INSERT INTO ledger`
abbrev pub insert_entry : Result Entry → Action Entry
insert_entry (err x) db = (err x, db)
insert_entry (ok e) db =
    if elem e.id (ids db.ledger)
    then (err (integrity_error "UNIQUE constraint failed: ledger.id"), db)
    else (ok e, record db { ledger = db.ledger ++ e ∷ [] })

unfoldable pub append_locked : Services → Fresh → Bool → Write → Action Entry
unfolding new_entry
append_locked s f trusted w db = insert_entry (new_entry s f trusted w db) db

-- `append(case_id, kind, payload, actor=…, source=…)`: what people may write
unfoldable pub append : Services → Fresh → Write → Action Entry
unfolding write_transaction append_locked
append s f w db =
    if w.kind == "investigation_run"
    then (err (ledger_error "Investigation records can only be generated by the engine"), db)
    else write_transaction (append_locked s f false w) db

abbrev pub machine_kinds : List String
machine_kinds =
    "acquisition" ∷ "agent_report" ∷ "trigger_event" ∷ "next_action" ∷ "decision_check"
    ∷ "decision_proposal" ∷ "evidence_discovery" ∷ []

-- `append_trusted(case_id, kind, payload, actor=…, source=…)`
unfoldable pub append_trusted : Services → Fresh → Write → Action Entry
unfolding write_transaction append_locked
append_trusted s f w db =
    if elem w.kind machine_kinds
    then write_transaction (append_locked s f true w) db
    else (err (store_error ("'" & w.kind & "' is not a machine-generated record")), db)

-- The end of `_investigate_locked`: the run is inserted, and then its entry is appended.
abbrev pub run_write : String → Dict → Value → Write
run_write case_id payload actor = record {
  case_id = case_id;
  kind = "investigation_run";
  payload = obj payload;
  actor = actor;
  source = "veyra://investigation-engine";
}

abbrev pub with_run : RunRow → Db → Db
with_run r db = record db { runs = db.runs ++ r ∷ [] }

unfoldable pub insert_run : Services → Fresh → RunRow → Dict → Value → Action Entry
unfolding append_locked
insert_run s f r payload actor db =
    if elem r.id (map (λ (x : RunRow). x.id) db.runs)
    then (err (integrity_error "UNIQUE constraint failed: runs.id"), db)
    else append_locked s f false (run_write r.case_id payload actor) (with_run r db)

-- in its own transaction, with the run and the payload that the engine made
unfoldable pub append_run : Services → Fresh → RunRow → Dict → Value → Action Entry
unfolding write_transaction insert_run
append_run s f r payload actor = write_transaction (insert_run s f r payload actor)
