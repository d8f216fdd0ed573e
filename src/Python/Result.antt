-- ===== src/Python/Result.antt =====
-- Python's exceptions as a result type, with `do` blocks and rules for what a successful run ensures.
use veyra_demo.Prelude.{
  All, Bool, Bool-cases, In, In-cons, List, Option, String, [], all_cons, all_nil, ap, false, first,
  if◌then◌else◌, inl, inr, later, none, not, refl, some, subst, sym, true, ◌∙◌, ◌∷◌, ◌≡◌,
}

-- The exceptions that the modelled code raises or lets through, with their messages; those that
-- Python raises for an operation on a wrong value carry the key or nothing.
pub data Error : Type 0 where
  ledger_error store_error state_error context_error account_error key_error : String → Error
  integrity_error : String → Error
  attribute_error type_error value_error : Error

pub data Result {ℓ} (A : Type ℓ) : Type ℓ where
  ok : A → Result A
  err : Error → Result A

infixl 5 ◌>>=◌ ◌>>◌
-- A statement and those after it: an exception ends the block.
abbrev pub ◌>>=◌ {ℓ κ} : {B : Type κ} {A : Type ℓ} → Result A → (A → Result B) → Result B
err e >>= rest = err e
ok x >>= rest = rest x

abbrev pub ◌>>◌ {ℓ κ} : {A : Type ℓ} {B : Type κ} → Result A → Result B → Result B
step >> after = step >>= λ _. after

-- `if test: raise error`
abbrev pub raise_if : Bool → Error → Result (Unit {0})
raise_if true e = err e
raise_if false e = ok tt

abbrev pub or_raise {ℓ} : {A : Type ℓ} → Option A → Error → Result A
or_raise none e = err e
or_raise (some a) e = ok a

pub raise_if-ok : (b : Bool) (e : Error) {u : Unit {0}} → raise_if b e ≡ ok u → b ≡ false
raise_if-ok true e h = cc
raise_if-ok false e h = refl

pub raise_if-not-ok : (b : Bool) (e : Error) {u : Unit {0}} → raise_if (not b) e ≡ ok u → b ≡ true
raise_if-not-ok true e h = refl
raise_if-not-ok false e h = cc

-- A list comprehension whose test or body may raise.
module _ {ℓ} {A : Type ℓ} where
  unfoldable pub select : (A → Result Bool) → List A → Result (List A)
  select p [] = ok []
  select p (x ∷ xs) = do here ← p x; rest ← select p xs; ok (if here then x ∷ rest else rest)

  unfoldable pub traverse {κ} : {B : Type κ} → (A → Result B) → List A → Result (List B)
  traverse f [] = ok []
  traverse f (x ∷ xs) = do y ← f x; ys ← traverse f xs; ok (y ∷ ys)

-- A block that returns went through its first step, and the rest returned on what that gave.
module _ {ℓ κ} {A : Type ℓ} {B : Type κ} where
  pub >>=-eq-ok :
      (step : Result A) (rest : A → Result B) {out : B}
      → (step >>= rest) ≡ ok out
      → (x : A) × (step ≡ ok x) × (rest x ≡ ok out)
  >>=-eq-ok (err e) rest returned = cc
  >>=-eq-ok (ok x) rest returned = (x, refl, returned)

-- `r` raises, or its value satisfies `P`.
pub data Ensures {ℓ κ} {A : Type ℓ} (P : A → Type κ) : Result A → Type (ℓ ⊔ κ) where
  returns : (a : A) → P a → Ensures P (ok a)
  raises : (e : Error) → Ensures P (err e)

module _ {ℓ κ} {A : Type ℓ} {P : A → Type κ} where
  pub Ensures-ok : {r : Result A} {a : A} → Ensures P r → r ≡ ok a → P a
  Ensures-ok (returns b p) h = subst P (cc) p
  Ensures-ok (raises e) h = cc

  pub Ensures-intro : (r : Result A) → ((a : A) → r ≡ ok a → P a) → Ensures P r
  Ensures-intro (ok a) h = returns a (h a refl)
  Ensures-intro (err e) h = raises e

  pub Ensures-if :
      (b : Bool) (m n : Result A)
      → (b ≡ true → Ensures P m)
      → (b ≡ false → Ensures P n)
      → Ensures P (if b then m else n)
  Ensures-if true m n hm hn = hm refl
  Ensures-if false m n hm hn = hn refl

  -- The rest of the block may use how the first step ended.
  pub Ensures-bind {μ} :
      {B : Type μ} (m : Result B) (f : B → Result A)
      → ((b : B) → m ≡ ok b → Ensures P (f b))
      → Ensures P (m >>= f)
  Ensures-bind (ok b) f h = h b refl
  Ensures-bind (err e) f h = raises e

-- A traversal that returns ran its function on every item.
pub traverse-each {ℓ κ μ} :
    {A : Type ℓ} {B : Type κ} (P : A → Type μ) (f : A → Result B)
    → ((x : A) (y : B) → f x ≡ ok y → P x)
    → (xs : List A) {ys : List B} → traverse f xs ≡ ok ys
    → All P xs
unfolding traverse
traverse-each P f each [] h = all_nil
traverse-each P f each (x ∷ xs) h =
    let (y, here, h') = >>=-eq-ok (f x) _ h in
    let (rest, more, _) = >>=-eq-ok (traverse f xs) _ h' in
    all_cons (each x y here) (traverse-each P f each xs more)

pub ok_injective {ℓ} : {A : Type ℓ} {x y : A} → ok x ≡ ok y → x ≡ y
ok_injective h = cc

-- where an item of a comprehension comes from
pub In-traverse {ℓ κ} :
    {A : Type ℓ} {B : Type κ} (f : A → Result B) (xs : List A) {ys : List B} (y : B)
    → traverse f xs ≡ ok ys
    → In y ys
    → (x : A) × In x xs × (f x ≡ ok y)
unfolding traverse
In-traverse f [] y h m = elim (subst (In y) (sym (ok_injective h)) m) [ ]
In-traverse f (x ∷ xs) y h m =
    let (z, fz, rest) = >>=-eq-ok (f x) _ h in
    let (zs, fzs, built) = >>=-eq-ok (traverse f xs) _ rest in
    elim (In-cons zs (subst (In y) (sym (ok_injective built)) m)) [
      | inl same ↦ (x, first refl, fz ∙ ap ok (sym same))
      | inr k ↦ let (w, n, e) = In-traverse f xs y fzs k in (w, later n, e)
    ]

-- a comprehension that keeps nothing tested every item false
pub select-none {ℓ} :
    {A : Type ℓ} (p : A → Result Bool) (xs : List A)
    → select p xs ≡ ok []
    → (x : A) → In x xs
    → p x ≡ ok false
unfolding select
select-none p [] h x m = elim m [ ]
select-none p (y ∷ ys) h x m =
    let (b, py, rest) = >>=-eq-ok (p y) _ h in
    let (zs, tail, built) = >>=-eq-ok (select p ys) _ rest in
    elim (Bool-cases b) [
      | inl kept ↦ cc (ok_injective (rw kept at built))
      | inr out ↦ elim (In-cons ys m) [
        | inl same ↦ ap p same ∙ py ∙ ap ok out
        | inr k ↦ select-none p ys (tail ∙ rw out at built) x k
      ]
    ]
