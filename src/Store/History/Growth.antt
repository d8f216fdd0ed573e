-- ===== src/Store/History/Growth.antt =====
-- Each step leaves the ledger alone or adds one accepted entry at its end.
use veyra_demo.Ledger.Entry.{Entry}
use veyra_demo.Prelude.{
  Bool, Bool-cases, String, [], ap, elem, false, inl, inr, map, refl, subst, sym, true, ◌++◌, ◌==◌,
  ◌∙◌, ◌∷◌, ◌≡◌,
}
use veyra_demo.Python.Result.{Result, err, ok}
use veyra_demo.Python.Value.{Dict, Value}
use veyra_demo.Store.Append.{
  Action, Fresh, Write, append, append_locked, append_run, append_trusted, insert_run,
  machine_kinds, run_write, with_run, write_transaction,
}
use veyra_demo.Store.Automatic.{
  Automatic, Tools, already, automatic_answer, automatic_write, computed, execute_automatic,
  execute_locked, finish_automatic,
}
use veyra_demo.Store.History.{Step, by_engine, by_person, by_run, by_tool, other_tables}
use veyra_demo.Store.Tables.{Db, RunRow, Services, ledger_of}
use veyra_demo.Store.Written.{
  Written, append_locked-Written, write_transaction-ok, write_transaction_rollback,
}

-- the store inside a transaction
abbrev pub begun : Db → Db
begun db = record db { in_transaction = true }

pub data Growth (s : Services) (db db' : Db) : Type 0 where
  unchanged : db'.ledger ≡ db.ledger → Growth s db db'
  grown :
      (f : Fresh) (trusted : Bool) (w : Write) (e : Entry) (u : Db)
      → Written s f trusted w (begun db) e u
      → db'.ledger ≡ db.ledger ++ e ∷ []
      → Growth s db db'

-- A transaction grows the ledger as its body does when it returns.
body-Growth :
    (s : Services) (db : Db) (body : Action Entry)
    → ((e : Entry) (u : Db) → body (begun db) ≡ (ok e, u) → Growth s db u)
    → Growth s db (write_transaction body db).1
body-Growth s db body grows = go (write_transaction body db).0 refl
  where
    closed : (u v : Db) → v.ledger ≡ u.ledger → Growth s db u → Growth s db v
    closed u v same (unchanged still) = unchanged (same ∙ still)
    closed u v same (grown f trusted w e x wr next) = grown f trusted w e x wr (same ∙ next)

    go :
        (r : Result Entry)
        → (write_transaction body db).0 ≡ r
        → Growth s db (write_transaction body db).1
    go (err x) h = unchanged (ap (λ (d : Db). d.ledger) (write_transaction_rollback body db x h))
    go (ok e) h =
        let (u, _, ran, ended) = write_transaction-ok body db e h in
        closed u _ (ap (λ (d : Db). d.ledger) ended) (grows e u ran)

transaction-Growth :
    (s : Services) (f : Fresh) (trusted : Bool) (w : Write) (db : Db)
    → Growth s db (write_transaction (append_locked s f trusted w) db).1
transaction-Growth s f trusted w db = body-Growth s db (append_locked s f trusted w) λ e u ran.
    let wr = append_locked-Written s f trusted w (begun db) ran in
    grown f trusted w e u wr (ap (λ (d : Db). d.ledger) wr.stored)

append-Growth : (s : Services) (f : Fresh) (w : Write) (db : Db) → Growth s db (append s f w db).1
unfolding append
append-Growth s f w db = elim (Bool-cases (w.kind == "investigation_run")) [
  | inl run ↦ rw run (unchanged refl)
  | inr other ↦ rw other (transaction-Growth s f false w db)
]

append_trusted-Growth :
    (s : Services) (f : Fresh) (w : Write) (db : Db) → Growth s db (append_trusted s f w db).1
unfolding append_trusted
append_trusted-Growth s f w db = elim (Bool-cases (elem w.kind machine_kinds)) [
  | inl machine ↦ rw machine (transaction-Growth s f true w db)
  | inr other ↦ rw other (unchanged refl)
]

-- The other tables do not count for what is written.
of_other_tables :
    (s : Services) (f : Fresh) (trusted : Bool) (w : Write) (db : Db) (r : RunRow) (e : Entry)
    (u : Db)
    → Written s f trusted w (with_run r db) e u
    → Written s f trusted w db e (record db { ledger = db.ledger ++ e ∷ [] })
unfolding ledger_of
of_other_tables s f trusted w db r e u wr = record {
  state = wr.state;
  validated = wr.validated;
  chain = wr.chain;
  accepted = wr.accepted;
  built = wr.built;
  fresh = wr.fresh;
  stored = refl;
}

append_run-Growth :
    (s : Services) (f : Fresh) (r : RunRow) (payload : Dict) (actor : Value) (db : Db)
    → Growth s db (append_run s f r payload actor db).1
unfolding append_run insert_run
append_run-Growth s f r payload actor db =
    body-Growth s db (insert_run s f r payload actor) inserted
  where
    w : Write
    w = run_write r.case_id payload actor

    inserted :
        (e : Entry) (u : Db) → insert_run s f r payload actor (begun db) ≡ (ok e, u) → Growth s db u
    inserted e u h = elim (Bool-cases (elem r.id (map (λ (x : RunRow). x.id) db.runs))) [
      | inl taken ↦ cc (ap (λ (p : Result Entry × Db). p.0) (rw taken at h))
      | inr unused ↦
          let wr = append_locked-Written s f false w (with_run r (begun db)) (rw unused at h) in
          grown f false w e (record (begun db) { ledger = db.ledger ++ e ∷ [] })
            (of_other_tables s f false w (begun db) r e u wr) (ap (λ (d : Db). d.ledger) wr.stored)
    ]

execute_automatic-Growth :
    (s : Services) (t : Tools) (f : Fresh) (case_id check_id : String) (actor : Value) (db : Db)
    → Growth s db (execute_automatic s t f case_id check_id actor db).1
unfolding execute_automatic execute_locked
execute_automatic-Growth s t f case_id check_id actor db =
    body-Growth s db (execute_locked s t f case_id check_id actor) executed
  where
    answered :
        (a : Result Automatic) (e : Entry) (u : Db)
        → finish_automatic s f case_id actor a (begun db) ≡ (ok e, u)
        → Growth s db u
    answered (err x) e u h = cc (ap (λ (p : Result Entry × Db). p.0) h)
    answered (ok (already d)) e u h = unchanged (sym (ap (λ (p : Result Entry × Db). p.1.ledger) h))
    answered (ok (computed payload)) e u h =
        let w = automatic_write case_id payload actor in
        let wr = append_locked-Written s f true w (begun db) h in
        grown f true w e u wr (ap (λ (d : Db). d.ledger) wr.stored)

    executed :
        (e : Entry) (u : Db)
        → execute_locked s t f case_id check_id actor (begun db) ≡ (ok e, u)
        → Growth s db u
    executed = answered (automatic_answer s t f case_id check_id actor (begun db))

pub Step-Growth : {s : Services} {db db' : Db} → Step s db db' → Growth s db db'
Step-Growth {s} {db} (by_person f w h) = subst (Growth s db) (sym h) (append-Growth s f w db)
Step-Growth {s} {db} (by_engine f w h) =
    subst (Growth s db) (sym h) (append_trusted-Growth s f w db)
Step-Growth {s} {db} (by_run f r payload actor h) =
    subst (Growth s db) (sym h) (append_run-Growth s f r payload actor db)
Step-Growth {s} {db} (by_tool t f case_id check_id actor h) =
    subst (Growth s db) (sym h) (execute_automatic-Growth s t f case_id check_id actor db)
Step-Growth (other_tables h) = unchanged h
