-- ===== src/Store/Assert.antt =====
-- Machine context in the store: `CaseStore.assert_context`, with the order in which
-- `CaseStore.assertions` reads, and what a write leaves as it was.
use veyra_demo.Context.{Assertion, learned}
use veyra_demo.Context.Known.{after_known}
use veyra_demo.Context.Resolve.{Snapshot, is_usable, resolve}
use veyra_demo.Context.Validate.{validate_assertion}
use veyra_demo.Ledger.Platform.{Platform, aware}
use veyra_demo.Prelude.{
  Bool, Bool-cases, List, Option, String, [], ap, elem, false, if◌then◌else◌, inl, inr, keep, map,
  refl, some, subst, sym, true, ℕ, ◌<◌, ◌==◌, ◌∙◌, ◌∷◌, ◌≡◌, ◌⊎◌,
}
use veyra_demo.Python.Result.{
  Ensures, Ensures-bind, Ensures-ok, Error, Result, err, integrity_error, ok, returns,
}
use veyra_demo.Python.Text.{text_le}
use veyra_demo.Python.Value.{Dict, Float}
use veyra_demo.Store.Append.{Action, Fresh}
use veyra_demo.Store.Tables.{Db, Services}

-- `ORDER BY recorded_at, id`, of the texts
abbrev recorded_text : Services → Assertion → String
recorded_text s a = s.platform.isoformat a.recorded_at

abbrev goes_before : Services → Assertion → Assertion → Bool
goes_before s a b =
    if recorded_text s a == recorded_text s b
    then text_le a.id b.id
    else text_le (recorded_text s a) (recorded_text s b)

unfoldable pub insert_assertion : Services → Assertion → List Assertion → List Assertion
insert_assertion s a [] = a ∷ []
insert_assertion s a (b ∷ bs) =
    let rest = insert_assertion s a bs in if goes_before s a b then a ∷ b ∷ bs else b ∷ rest

-- the insertion and the commit, after the validation; an insertion that fails leaves the transaction open
-- that `sqlite3` began for it
unfoldable pub store_assertion : Services → Db → Result Assertion → Result Assertion × Db
unfolding insert_assertion
store_assertion s db (err e) = (err e, db)
store_assertion s db (ok a) =
    if elem a.id (map (λ b. b.id) db.assertions)
    then (
      err (integrity_error "UNIQUE constraint failed: context_assertions.id"),
      record db { in_transaction = true },
    )
    else (
      ok a,
      record db { assertions = insert_assertion s a db.assertions; in_transaction = false },
    )

-- `assert_context(raw)`; `read_float` is Python's `float` of a text.
unfoldable pub assert_context : Services → (String → Option Float) → Fresh → Dict → Action Assertion
unfolding store_assertion
assert_context s read_float f raw db =
    store_assertion s db
      (validate_assertion s.platform read_float raw f.entry_id (aware f.now 1440))

keep-insert_assertion :
    (s : Services) (q : Assertion → Bool) (a : Assertion) (bs : List Assertion)
    → q a ≡ false
    → keep q (insert_assertion s a bs) ≡ keep q bs
unfolding insert_assertion
keep-insert_assertion s q a [] h = rw h refl
keep-insert_assertion s q a (b ∷ bs) h = elim (Bool-cases (goes_before s a b)) [
  | inl front ↦ rw (front, h) refl
  | inr behind ↦ elim (Bool-cases (q b)) [
    | inl kept ↦ rw (behind, kept) (ap (λ t. b ∷ t) (keep-insert_assertion s q a bs h))
    | inr dropped ↦ rw (behind, dropped) (keep-insert_assertion s q a bs h)
  ]
]

validate_assertion-learned :
    (p : Platform) (read_float : String → Option Float) (raw : Dict) (id : String) (now : ℕ)
    → Ensures (λ a. learned a ≡ now) (validate_assertion p read_float raw id (aware now 1440))
unfolding validate_assertion
validate_assertion-learned p read_float raw id now = search (returns, Ensures-bind) depth 30

insert-resolve :
    (s : Services) (a : Assertion) (bs : List Assertion) (machine_id : String)
    (effective_at known : ℕ)
    → known < learned a
    → resolve s.context_digest (insert_assertion s a bs) machine_id effective_at (some known)
      ≡ resolve s.context_digest bs machine_id effective_at (some known)
unfolding resolve
insert-resolve s a bs machine_id effective_at known h =
    rw
      (keep-insert_assertion s (is_usable machine_id effective_at (some known)) a bs
        (after_known machine_id effective_at known a h))
      refl

-- The context is as it was, or holds one more accepted assertion.
store_assertion-assertions :
    (s : Services) (db : Db) (r : Result Assertion)
    → ((store_assertion s db r).1.assertions ≡ db.assertions)
      ⊎ ((a : Assertion) × (r ≡ ok a)
          × ((store_assertion s db r).1.assertions ≡ insert_assertion s a db.assertions))
unfolding store_assertion
store_assertion-assertions s db (err e) = inl refl
store_assertion-assertions s db (ok a) =
    elim (Bool-cases (elem a.id (map (λ b. b.id) db.assertions))) [
      | inl taken ↦ inl (rw taken refl)
      | inr unused ↦ inr (a, refl, rw unused refl)
    ]

refused_tables :
    (s : Services) (db : Db) (r : Result Assertion) (x : Error)
    → (store_assertion s db r).0 ≡ err x
    → record (store_assertion s db r).1 { in_transaction = db.in_transaction } ≡ db
unfolding store_assertion
refused_tables s db (err e) x h = refl
refused_tables s db (ok a) x h = elim (Bool-cases (elem a.id (map (λ b. b.id) db.assertions))) [
  | inl taken ↦ rw taken refl
  | inr unused ↦ cc (rw unused at h)
]

-- What is asserted now does not change what a replay with an earlier cutoff sees, for any machine
-- and any time; a refused assertion leaves every table as it was, though an insertion that fails leaves its transaction
-- open.
pub assert_context-replay :
    (s : Services) (read_float : String → Option Float) (f : Fresh) (raw : Dict) (db : Db)
    (machine_id : String) (effective_at known : ℕ)
    → known < f.now
    → (resolve s.context_digest
          (assert_context s read_float f raw db).1.assertions
          machine_id
          effective_at
          (some known)
        ≡ resolve s.context_digest db.assertions machine_id effective_at (some known))
      × ((x : Error)
          → (assert_context s read_float f raw db).0 ≡ err x
          → record (assert_context s read_float f raw db).1 { in_transaction = db.in_transaction }
            ≡ db)
unfolding assert_context
assert_context-replay s read_float f raw db machine_id effective_at known h =
    let asked = validate_assertion s.platform read_float raw f.entry_id (aware f.now 1440) in
    let seen : List Assertion → Snapshot =
      λ told. resolve s.context_digest told machine_id effective_at (some known) in
    (
      elim (store_assertion-assertions s db asked) [
        | inl same ↦ ap seen same
        | inr (a, accepted, more) ↦
            ap seen more
            ∙ insert-resolve s a db.assertions machine_id effective_at known (
                subst (λ n. known < n)
                  (sym (
                    Ensures-ok
                      (validate_assertion-learned s.platform read_float raw f.entry_id f.now)
                      accepted))
                  h)
      ],
      refused_tables s db asked,
    )
