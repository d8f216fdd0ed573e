-- ===== src/Store/Written.antt =====
-- What a ledger write that goes through has done.
use veyra_demo.Ledger.Chain.{build_entry, head_hash, is_valid, verify_chain}
use veyra_demo.Ledger.Entry.{Entry, ids}
use veyra_demo.Ledger.Request.{State, Validated, actor_text}
use veyra_demo.Ledger.Validate.{validate}
use veyra_demo.Prelude.{
  Bool, Bool-cases, [], ap, elem, false, if◌then◌else◌, inl, inr, not, refl, subst, sym, true, ◌++◌,
  ◌∙◌, ◌∷◌, ◌≡◌,
}
use veyra_demo.Python.Result.{
  Ensures, Ensures-bind, Ensures-ok, Error, Result, err, ok, ok_injective, raise_if,
  raise_if-not-ok, returns, store_error,
}
use veyra_demo.Store.Append.{
  Action, Fresh, Write, append_locked, end_transaction, insert_entry, new_entry, write_transaction,
}
use veyra_demo.Store.Tables.{Db, Services, case_of, ledger_of, state_of}

-- The call of `_append_locked` found the case's chain valid, `validate` accepted the entry against
-- the entries of the case, and the entry alone was added, at the end.
pub record Written (s : Services) (f : Fresh) (trusted : Bool) (w : Write) (db : Db) (e : Entry)
    (db' : Db) : Type 0 where
  pub state : State
  pub validated : Validated
  pub chain : is_valid (verify_chain s.platform (ledger_of db w.case_id)) ≡ true
  pub accepted :
      validate s.platform w.kind w.payload w.actor (ledger_of db w.case_id) state f.now trusted
      ≡ ok validated
  pub built :
      e
      ≡ build_entry s.platform f.entry_id w.case_id w.kind
          (actor_text w.actor)
          w.source
          f.recorded_at
          validated.0
          validated.1
          (head_hash (ledger_of db w.case_id))
  pub fresh : elem e.id (ids db.ledger) ≡ false
  pub stored : db' ≡ record db { ledger = db.ledger ++ e ∷ [] }

-- what stands behind an entry before it is inserted
record Checked (s : Services) (f : Fresh) (trusted : Bool) (w : Write) (db : Db) (e : Entry)
    : Type 0 where
  state : State
  validated : Validated
  chain : is_valid (verify_chain s.platform (ledger_of db w.case_id)) ≡ true
  accepted :
      validate s.platform w.kind w.payload w.actor (ledger_of db w.case_id) state f.now trusted
      ≡ ok validated
  built :
      e
      ≡ build_entry s.platform f.entry_id w.case_id w.kind
          (actor_text w.actor)
          w.source
          f.recorded_at
          validated.0
          validated.1
          (head_hash (ledger_of db w.case_id))

new_entry-Checked :
    (s : Services) (f : Fresh) (trusted : Bool) (w : Write) (db : Db)
    → Ensures (Checked s f trusted w db) (new_entry s f trusted w db)
unfolding new_entry
new_entry-Checked s f trusted w db =
    let es = ledger_of db w.case_id in
    Ensures-bind (raise_if (not db.in_transaction) _) _ λ _ began.
      Ensures-bind (case_of db w.case_id) _ λ c found.
        Ensures-bind (raise_if (not (is_valid (verify_chain s.platform es))) _) _ λ _ chained.
          Ensures-bind (state_of s f.now db c) _ λ state read.
            Ensures-bind (validate s.platform w.kind w.payload w.actor es state f.now trusted) _
              λ v accepted. returns _ (record {
                state = state;
                validated = v;
                chain = raise_if-not-ok _ _ chained;
                accepted = accepted;
                built = refl;
              })

pub append_locked-Written :
    (s : Services) (f : Fresh) (trusted : Bool) (w : Write) (db : Db) {e : Entry} {db' : Db}
    → append_locked s f trusted w db ≡ (ok e, db')
    → Written s f trusted w db e db'
unfolding append_locked
append_locked-Written s f trusted w db {e} {db'} h = go (new_entry s f trusted w db) refl h
  where
    go :
        (r : Result Entry)
        → new_entry s f trusted w db ≡ r
        → insert_entry r db ≡ (ok e, db')
        → Written s f trusted w db e db'
    go (err x) made k = cc (ap (λ p. p.0) k)
    go (ok x) made k = elim (Bool-cases (elem x.id (ids db.ledger))) [
      | inl taken ↦ cc (ap (λ (p : Result Entry × Db). p.0) (rw taken at k))
      | inr fresh ↦
          let same : x ≡ e = ok_injective (ap (λ (p : Result Entry × Db). p.0) (rw fresh at k)) in
          let checked = Ensures-ok (new_entry-Checked s f trusted w db) (made ∙ ap ok same) in
          record {
            state = checked.state;
            validated = checked.validated;
            chain = checked.chain;
            accepted = checked.accepted;
            built = checked.built;
            fresh = subst (λ (y : Entry). elem y.id (ids db.ledger) ≡ false) same fresh;
            stored =
                sym (ap (λ (p : Result Entry × Db). p.1) (rw fresh at k))
                ∙ ap (λ y. record db { ledger = db.ledger ++ y ∷ [] }) same;
          }
    ]

-- a transaction, from whether one is active and from what the body left
abbrev transaction_end : {A : Type 0} → Bool → Db → Result A × Db → Result A × Db
transaction_end busy db r =
    if busy
    then (err (store_error "An explicit write transaction is already active"), db)
    else end_transaction db r

-- A transaction that raises leaves the tables as they were.
pub write_transaction_rollback :
    {A : Type 0} (body : Action A) (db : Db) (e : Error)
    → (write_transaction body db).0 ≡ err e
    → (write_transaction body db).1 ≡ db
unfolding write_transaction
write_transaction_rollback {A} body db e h =
    ended db.in_transaction (body (record db { in_transaction = true })) h
  where
    ended :
        (b : Bool) (r : Result A × Db)
        → (transaction_end b db r).0 ≡ err e
        → (transaction_end b db r).1 ≡ db
    ended true r k = refl
    ended false (err x, after) k = refl
    ended false (ok a, after) k = cc

-- A transaction that returns ran its body to the end, and the tables are those of the body.
pub write_transaction-ok :
    {A : Type 0} (body : Action A) (db : Db) (a : A)
    → (write_transaction body db).0 ≡ ok a
    → (db' : Db) × (db.in_transaction ≡ false)
      × (body (record db { in_transaction = true }) ≡ (ok a, db'))
      × ((write_transaction body db).1 ≡ record db' { in_transaction = false })
unfolding write_transaction
write_transaction-ok {A} body db a h =
    finish db.in_transaction (body (record db { in_transaction = true })) h
  where
    finish :
        (b : Bool) (r : Result A × Db)
        → (transaction_end b db r).0 ≡ ok a
        → (db' : Db) × (b ≡ false)
          × (r ≡ (ok a, db'))
          × ((transaction_end b db r).1 ≡ record db' { in_transaction = false })
    finish true r k = cc
    finish false (err e, after) k = cc
    finish false (ok b, after) k = (after, refl, ap (λ x. (x, after)) k, refl)
