-- ===== src/Store/Calls.antt =====
-- What a call of `append`, `append_trusted` or `_investigate_locked` leaves behind.
use veyra_demo.Ledger.Entry.{Entry, ids}
use veyra_demo.Ledger.Rules.Trust.{IsHuman, validate-IsHuman}
use veyra_demo.Prelude.{
  Bool, Bool-cases, List, [], ap, elem, eq_iff, false, inl, inr, refl, subst₂, sym, true, ◌++◌,
  ◌==◌, ◌∙◌, ◌∷◌, ◌≡◌, ◌≢◌,
}
use veyra_demo.Python.Result.{Error, Result, err, ok}
use veyra_demo.Store.Append.{
  Fresh, Write, append, append_locked, append_trusted, machine_kinds, write_transaction,
}
use veyra_demo.Store.History.Growth.{begun}
use veyra_demo.Store.History.Sound.{Written-case, Written-kind, Written-payload}
use veyra_demo.Store.Tables.{Db, Services, ledger_of}
use veyra_demo.Store.Written.{
  append_locked-Written, write_transaction-ok, write_transaction_rollback,
}

-- The call raised and the tables are as they were, or it returned the one entry that it added at the
-- end of the ledger, in the case and of the kind that were asked for.
pub data AllOrNothing (w : Write) (db : Db) (r : Result Entry × Db) : Type 0 where
  call_refused : (x : Error) → r.0 ≡ err x → r.1 ≡ db → AllOrNothing w db r
  call_added :
      (e : Entry)
      → r.0 ≡ ok e
      → r.1 ≡ record db { ledger = db.ledger ++ e ∷ [] }
      → e.case_id ≡ w.case_id
      → e.kind ≡ w.kind
      → elem e.id (ids db.ledger) ≡ false
      → AllOrNothing w db r

idle_again :
    (db : Db) (es : List Entry)
    → db.in_transaction ≡ false
    → record (record (begun db) { ledger = es }) { in_transaction = false }
      ≡ record db { ledger = es }
idle_again db es idle =
    ap (λ b. record (record db { ledger = es }) { in_transaction = b }) (sym idle)

transaction-AllOrNothing :
    (s : Services) (f : Fresh) (trusted : Bool) (w : Write) (db : Db)
    → AllOrNothing w db (write_transaction (append_locked s f trusted w) db)
transaction-AllOrNothing s f trusted w db =
    go (write_transaction (append_locked s f trusted w) db).0 refl
  where
    go :
        (r : Result Entry)
        → (write_transaction (append_locked s f trusted w) db).0 ≡ r
        → AllOrNothing w db (write_transaction (append_locked s f trusted w) db)
    go (err x) h =
        call_refused x h (write_transaction_rollback (append_locked s f trusted w) db x h)
    go (ok e) h =
        let (u, idle, ran, ended) = write_transaction-ok (append_locked s f trusted w) db e h in
        let wr = append_locked-Written s f trusted w (begun db) ran in
        call_added e h
          (ended
            ∙ ap (λ (d : Db). record d { in_transaction = false }) wr.stored
            ∙ idle_again db (db.ledger ++ e ∷ []) idle)
          (Written-case s f trusted w db e u wr) (Written-kind s f trusted w db e u wr) wr.fresh

-- `append` is all or nothing, whatever is called and in whatever state the store is.
pub append-AllOrNothing :
    (s : Services) (f : Fresh) (w : Write) (db : Db) → AllOrNothing w db (append s f w db)
unfolding append
append-AllOrNothing s f w db = elim (Bool-cases (w.kind == "investigation_run")) [
  | inl run ↦ rw run (call_refused _ refl refl)
  | inr other ↦ rw other (transaction-AllOrNothing s f false w db)
]

-- So is `append_trusted`.
pub append_trusted-AllOrNothing :
    (s : Services) (f : Fresh) (w : Write) (db : Db) → AllOrNothing w db (append_trusted s f w db)
unfolding append_trusted
append_trusted-AllOrNothing s f w db = elim (Bool-cases (elem w.kind machine_kinds)) [
  | inl machine ↦ rw machine (transaction-AllOrNothing s f true w db)
  | inr other ↦ rw other (call_refused _ refl refl)
]

transaction-IsHuman :
    (s : Services) (f : Fresh) (w : Write) (db : Db) (e : Entry)
    → (write_transaction (append_locked s f false w) db).0 ≡ ok e
    → IsHuman e.kind e.payload × (e.kind ≡ w.kind)
transaction-IsHuman s f w db e h =
    let (u, _, ran, _) = write_transaction-ok (append_locked s f false w) db e h in
    let wr = append_locked-Written s f false w (begun db) ran in
    (
      subst₂ IsHuman (sym (Written-kind s f false w db e u wr))
          (sym (Written-payload s f false w db e u wr))
          (validate-IsHuman s.platform w.kind w.payload w.actor (ledger_of (begun db) w.case_id)
            wr.state f.now wr.validated wr.accepted),
      Written-kind s f false w db e u wr,
    )

-- What people write through `append` is never an investigation run, a record of Veyra's connectors
-- or agent, an automatic result, or a proposal in Veyra's name.
pub append-IsHuman :
    (s : Services) (f : Fresh) (w : Write) (db : Db) (e : Entry)
    → (append s f w db).0 ≡ ok e
    → IsHuman e.kind e.payload × (e.kind ≢ "investigation_run")
unfolding append
append-IsHuman s f w db e h = elim (Bool-cases (w.kind == "investigation_run")) [
  | inl run ↦ absurd (cc (rw run at h))
  | inr other ↦
      let (human, same) = transaction-IsHuman s f w db e (rw other at h) in
      (human, λ run. cc (other, (eq_iff w.kind "investigation_run").1 (sym same ∙ run)))
]
