-- ===== src/Ledger/Links.antt =====
-- Where the links of an accepted entry point: lemmas on the searches of the validators, and the
-- rules by which each validator's links are shown to be entries of the case.
pub mod Checks
pub mod Decisions
pub mod Outcomes
pub mod Others
pub mod Every
use veyra_demo.Ledger.Entry.{Entry, ids}
use veyra_demo.Ledger.Request.{Request, Validated, find, is_run, require_current_run, run_entry}
use veyra_demo.Prelude.{
  All, Bool, Bool-cases, In, In-cons, In-map, List, String, [], all_cons, all_nil, arith, first,
  inl, inr, later, subst, ◌&&◌, ◌==◌, ◌∷◌, ◌≡◌,
}
use veyra_demo.Python.Result.{
  >>=-eq-ok, Ensures-bind, Ensures-if, Result, ok, raises, returns, select, traverse,
}
use veyra_demo.Python.Value.{Value, get, is_str, value_eq}

-- `i` is the id of an entry of the case.
abbrev pub IsEntryId : List Entry → String → Type 0
IsEntryId es i = In i (ids es)

abbrev pub LinksKnown : Request → Validated → Type 0
LinksKnown r v = All (IsEntryId r.entries) v.1

pub find-In :
    (es : List Entry) (v : Value) (kind : String) (e : Entry) → find es v kind ≡ ok e → In e es
unfolding find
find-In [] v kind e h = cc
find-In (d ∷ es) v kind e h = elim (Bool-cases (is_str d.id v && d.kind == kind)) [
  | inl here ↦ first (ground arith)
  | inr other ↦ later (find-In es v kind e (rw other at h))
]

pub run_entry-In : (es : List Entry) (v : Value) (e : Entry) → run_entry es v ≡ ok e → In e es
unfolding run_entry
run_entry-In [] v e h = cc
run_entry-In (d ∷ es) v e h = elim (Bool-cases (is_run d && value_eq (get "run_id" d.payload) v)) [
  | inl here ↦ first (ground arith)
  | inr other ↦ later (run_entry-In es v e (rw other at h))
]

module _ {ℓ} {A : Type ℓ} where
  pub select-In :
      (p : A → Result Bool) (xs ys : List A) → select p xs ≡ ok ys → (x : A) → In x ys → In x xs
  unfolding select
  select-In p [] ys h x m = subst (In x) (cc) m
  select-In p (z ∷ xs) ys h x m =
      let (here, tested, h') = >>=-eq-ok (p z) _ h in
      let (rest, kept, h'') = >>=-eq-ok (select p xs) _ h' in
      elim (Bool-cases here) [
        | inr out ↦ later (select-In p xs rest kept x (subst (In x) (ground arith) m))
        | inl held ↦ elim (In-cons rest (subst (In x) (ground arith) m)) [
          | inl e ↦ first e
          | inr k ↦ later (select-In p xs rest kept x k)
        ]
      ]

pub traverse-All {ℓ κ μ} :
    {A : Type ℓ} {B : Type κ} (P : B → Type μ) (f : A → Result B)
    → ((x : A) (y : B) → f x ≡ ok y → P y)
    → (xs : List A) (ys : List B) → traverse f xs ≡ ok ys
    → All P ys
unfolding traverse
traverse-All P f each [] ys h = let same : [] ≡ ys = cc in subst (All P) same all_nil
traverse-All P f each (x ∷ xs) ys h =
    let (y, here, h') = >>=-eq-ok (f x) _ h in
    let (rest, more, h'') = >>=-eq-ok (traverse f xs) _ h' in
    let same : (y ∷ rest) ≡ ys = ground arith in
    subst (All P) same (all_cons (each x y here) (traverse-All P f each xs rest more))

pub require_current_run-In :
    (r : Request) (v : Value) (e : Entry) → require_current_run r v ≡ ok e → In e r.entries
unfolding require_current_run
require_current_run-In r v e h = run_entry-In r.entries v e (ground arith)

-- The rules for the links of a validator.
pub run-Known :
    (r : Request) (v : Value) (e : Entry)
    → require_current_run r v ≡ ok e
    → IsEntryId r.entries e.id
run-Known r v e h = In-map (λ e. e.id) r.entries (require_current_run-In r v e h)

pub found-Known :
    (r : Request) (v : Value) (kind : String) (e : Entry)
    → find r.entries v kind ≡ ok e
    → IsEntryId r.entries e.id
found-Known r v kind e h = In-map (λ e. e.id) r.entries (find-In r.entries v kind e h)

pub run_entry-Known :
    (r : Request) (v : Value) (e : Entry) → run_entry r.entries v ≡ ok e → IsEntryId r.entries e.id
run_entry-Known r v e h = In-map (λ e. e.id) r.entries (run_entry-In r.entries v e h)

pub ruleset link_rules = (
  returns, all_nil, all_cons, raises, Ensures-bind, Ensures-if, run-Known, found-Known,
  run_entry-Known,
)
