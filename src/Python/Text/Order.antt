-- ===== src/Python/Text/Order.antt =====
-- The order of texts by code points is total and transitive; sorting a set of texts loses none.
use Prim.Native.String.compare
use Prim.Native.String.{then, compare}
use text.Mathlib.Text.{is_le}
use Prim.Native.Nat
use Prim.Native.Char.{code}
use Prim.Native.Nat.{Ordering}
use veyra_demo.Prelude.{
  Bool, Bool-cases, In, In-cons, List, String, [], arith, elem, elem-In, false, first, inl, inr,
  later, not, refl, subst, sym, true, ℕ, ◌∷◌, ◌≡◌,
}
use veyra_demo.Python.Text.{distinct, insert_text, sorted, text_le}

total_step :
    (m n : ℕ) (x y : Ordering)
    → (is_le x ≡ false → is_le y ≡ true)
    → is_le (then (Nat.compare m n) x) ≡ false
    → is_le (then (Nat.compare n m) y) ≡ true
total_step m n x y rest h = ground arith

trans_step :
    (l m n : ℕ) (x y z : Ordering)
    → (is_le x ≡ true → is_le y ≡ true → is_le z ≡ true)
    → is_le (then (Nat.compare l m) x) ≡ true
    → is_le (then (Nat.compare m n) y) ≡ true
    → is_le (then (Nat.compare l n) z) ≡ true
trans_step l m n x y z rest h g = ground arith

pub text_le_total : (s t : String) → text_le s t ≡ false → text_le t s ≡ true
text_le_total String.[] String.[] h = refl
text_le_total String.[] (String.◌∷◌ d t) h = cc (rw (compare.nil-cons d t) at h)
text_le_total (String.◌∷◌ c s) String.[] h = rw (compare.nil-cons c s) refl
text_le_total (String.◌∷◌ c s) (String.◌∷◌ d t) h = rw (compare.cons-cons d c t s) (
    total_step (code c) (code d) (compare s t) (compare t s) (text_le_total s t)
      (rw (compare.cons-cons c d s t) at h))

pub text_le_trans : (s t u : String) → text_le s t ≡ true → text_le t u ≡ true → text_le s u ≡ true
text_le_trans String.[] t String.[] h g = refl
text_le_trans String.[] t (String.◌∷◌ e u) h g = rw (compare.nil-cons e u) refl
text_le_trans (String.◌∷◌ c s) String.[] u h g = cc (rw (compare.cons-nil c s) at h)
text_le_trans (String.◌∷◌ c s) (String.◌∷◌ d t) String.[] h g = cc (rw (compare.cons-nil d t) at g)
text_le_trans (String.◌∷◌ c s) (String.◌∷◌ d t) (String.◌∷◌ e u) h g =
    rw (compare.cons-cons c e s u) (
      trans_step (code c) (code d) (code e) (compare s t) (compare t u) (compare s u)
        (text_le_trans s t u) (rw (compare.cons-cons c d s t) at h)
        (rw (compare.cons-cons d e t u) at g))

-- the same of `s < t`, which is `not (t <= s)`
pub text_lt_asym : (s t : String) → not (text_le t s) ≡ true → not (text_le s t) ≡ false
text_lt_asym s t h = go (text_le t s) (text_le s t) (text_le_total t s) h
  where
    go : (p q : Bool) → (p ≡ false → q ≡ true) → not p ≡ true → not q ≡ false
    go p true k h = refl
    go true false k h = cc
    go false false k h = cc (k refl)

pub text_lt_trans :
    (s t u : String)
    → not (text_le t s) ≡ false
    → not (text_le u t) ≡ false
    → not (text_le u s) ≡ false
text_lt_trans s t u h g =
    go (text_le t s) (text_le u t) (text_le u s) (λ x y. text_le_trans u t s y x) h g
  where
    go :
        (p q r : Bool)
        → (p ≡ true → q ≡ true → r ≡ true)
        → not p ≡ false
        → not q ≡ false
        → not r ≡ false
    go false q r k g h = cc
    go true false r k g h = cc
    go true true r k g h = rw (k refl refl) refl

In-insert_text : (s t : String) (ts : List String) → In t (s ∷ ts) → In t (insert_text s ts)
In-insert_text s t [] m = m
In-insert_text s t (u ∷ us) m = elim (Bool-cases (is_le (compare s u))) [
  | inl low ↦ rw low m
  | inr high ↦ rw high (elim (In-cons (u ∷ us) m) [
    | inl same ↦ later (In-insert_text s t us (first same))
    | inr k ↦ elim (In-cons us k) [
      | inl same ↦ first same
      | inr n ↦ later (In-insert_text s t us (later n))
    ]
  ])
]

pub In-sorted : (ts : List String) (t : String) → In t ts → In t (sorted ts)
In-sorted [] t m = m
In-sorted (s ∷ ss) t m =
    In-insert_text s t (sorted ss)
      (elim (In-cons ss m) [ inl same ↦ first same | inr k ↦ later (In-sorted ss t k) ])

pub In-distinct : (ts : List String) (t : String) → In t ts → In t (distinct ts)
In-distinct [] t m = m
In-distinct (s ∷ ss) t m = elim (Bool-cases (elem s (distinct ss))) [
  | inl again ↦ rw again (elim (In-cons ss m) [
    | inl same ↦ subst (λ x. In x (distinct ss)) (sym same) (elem-In s (distinct ss) again)
    | inr k ↦ In-distinct ss t k
  ])
  | inr fresh ↦
      rw fresh (elim (In-cons ss m) [ inl same ↦ first same | inr k ↦ later (In-distinct ss t k) ])
]
