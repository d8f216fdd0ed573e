-- ===== src/Prelude.antt =====
-- Names and small lemmas that every module shares: the libraries' names passed on, Boolean tests
-- on numbers, membership and predicates over lists.
pub mod Sort
pub mod Distinct
use Prim.Native.Nat.{compare, Ordering}
pub use Prim.Native.Nat.{ℕ, zero, suc, ◌+◌, ◌-◌, ◌*◌, ◌^◌, ◌/◌, ◌%◌, ◌≤◌, ◌<◌}
pub use Prim.Native.String.{String}
pub use mathlib.Core.Path.{◌≡◌, refl, sym, ap, ap₂, ◌∙◌, subst, subst₂}
pub use mathlib.Core.Logic.{◌≢◌, ◌⊎◌, inl, inr, ◌↔◌}
pub use mathlib.Core.Bool.{Bool, true, false, not, ◌&&◌, ◌||◌, false≢true}
pub use mathlib.Core.Option.{Option, none, some}
pub use mathlib.Core.List.{List, [], ◌∷◌, ◌++◌, map, reverse}
pub use native.Mathlib.Omega.{arith}
pub use text.Mathlib.Text.{◌==◌}
pub use text.Mathlib.TextEquality.{eq_iff}
pub use text.Mathlib.TextPositions.{eq_refl}

abbrev pub ltb : ℕ → ℕ → Bool
ltb a b = elim (compare a b) [ Ordering.lt ↦ true | _ ↦ false ]

abbrev pub leb : ℕ → ℕ → Bool
leb a b = elim (compare a b) [ Ordering.gt ↦ false | _ ↦ true ]

abbrev pub nat_eq : ℕ → ℕ → Bool
nat_eq a b = elim (compare a b) [ Ordering.eq ↦ true | _ ↦ false ]

infix 1 if◌then◌else◌
abbrev pub if◌then◌else◌ {ℓ} : {A : Type ℓ} → Bool → A → A → A
if true then x else y = x
if false then x else y = y

pub Bool-cases : (b : Bool) → (b ≡ true) ⊎ (b ≡ false)
Bool-cases true = inl refl
Bool-cases false = inr refl

pub leb→le : (a b : ℕ) → leb a b ≡ true → a ≤ b
leb→le a b h = ground arith

pub ltb→lt : (a b : ℕ) → ltb a b ≡ true → a < b
ltb→lt a b h = ground arith

pub &&_split : (a b : Bool) → (a && b) ≡ true → (a ≡ true) × (b ≡ true)
&&_split a b h = ground arith

-- the value of an option, or `d`
abbrev pub or_else {ℓ} : {A : Type ℓ} → A → Option A → A
or_else d none = d
or_else d (some a) = a

module _ {ℓ} {A : Type ℓ} where
  abbrev pub length : List A → ℕ
  length [] = 0
  length (x ∷ xs) = suc (length xs)

  abbrev pub is_nil : List A → Bool
  is_nil [] = true
  is_nil (x ∷ xs) = false

  abbrev pub take : ℕ → List A → List A
  take zero xs = []
  take (suc n) [] = []
  take (suc n) (x ∷ xs) = x ∷ take n xs

  -- `xs[-1] if xs else None`
  abbrev pub last? : List A → Option A
  last? [] = none
  last? (x ∷ []) = some x
  last? (x ∷ y ∷ xs) = last? (y ∷ xs)

  abbrev pub any : (A → Bool) → List A → Bool
  any p [] = false
  any p (x ∷ xs) = p x || any p xs

  abbrev pub every : (A → Bool) → List A → Bool
  every p [] = true
  every p (x ∷ xs) = p x && every p xs

  abbrev pub keep : (A → Bool) → List A → List A
  keep p [] = []
  keep p (x ∷ xs) = let rest = keep p xs in if p x then x ∷ rest else rest

  -- `x` is an item of the list, with its place.
  pub data In (x : A) : List A → Type ℓ where
    first : {y : A} {xs : List A} → x ≡ y → In x (y ∷ xs)
    later : {y : A} {xs : List A} → In x xs → In x (y ∷ xs)

-- `s in xs` for a list or a set of texts.
abbrev pub elem : String → List String → Bool
elem s xs = any (λ x. x == s) xs

-- Every item of the list satisfies `P`.
pub data All {ℓ κ} {A : Type ℓ} (P : A → Type κ) : List A → Type (ℓ ⊔ κ) where
  all_nil : All P []
  all_cons : {x : A} {xs : List A} → P x → All P xs → All P (x ∷ xs)

pub elem-In : (s : String) (xs : List String) → elem s xs ≡ true → In s xs
elem-In s [] h = cc
elem-In s (x ∷ xs) h = elim (Bool-cases (x == s)) [
  | inl e ↦ first (sym ((eq_iff x s).0 e))
  | inr e ↦ later (elem-In s xs (ground arith))
]

pub In-elem : (s : String) (xs : List String) → In s xs → elem s xs ≡ true
In-elem s [] m = elim m [ ]
In-elem s (x ∷ xs) (first e) = rw ((eq_iff x s).1 (sym e))
In-elem s (x ∷ xs) (later m) = ground (arith, In-elem s xs m)

pub In-append_left {ℓ} : {A : Type ℓ} {x : A} (xs ys : List A) → In x xs → In x (xs ++ ys)
In-append_left [] ys m = elim m [ ]
In-append_left (y ∷ xs) ys (first e) = first e
In-append_left (y ∷ xs) ys (later m) = later (In-append_left xs ys m)

pub In-append_right {ℓ} : {A : Type ℓ} {x : A} (xs ys : List A) → In x ys → In x (xs ++ ys)
In-append_right [] ys m = m
In-append_right (y ∷ xs) ys m = later (In-append_right xs ys m)

pub In-map {ℓ κ} :
    {A : Type ℓ} {B : Type κ} (f : A → B) {x : A} (xs : List A) → In x xs → In (f x) (map f xs)
In-map f [] m = elim m [ ]
In-map f (y ∷ xs) (first e) = first (ap f e)
In-map f (y ∷ xs) (later m) = later (In-map f xs m)

module _ {ℓ κ} {A : Type ℓ} where
  pub All-append : (P : A → Type κ) {xs ys : List A} → All P xs → All P ys → All P (xs ++ ys)
  All-append P all_nil hy = hy
  All-append P (all_cons h hx) hy = all_cons h (All-append P hx hy)

  pub All-impl : {P Q : A → Type κ} → ((x : A) → P x → Q x) → {xs : List A} → All P xs → All Q xs
  All-impl f all_nil = all_nil
  All-impl f (all_cons {x = x} h hx) = all_cons (f x h) (All-impl f hx)

  pub All-In : {P : A → Type κ} {x : A} {xs : List A} → All P xs → In x xs → P x
  All-In all_nil m = elim m [ ]
  All-In {P} (all_cons h hx) (first e) = subst P (sym e) h
  All-In (all_cons h hx) (later m) = All-In hx m

  pub All-intro : (P : A → Type κ) (xs : List A) → ((x : A) → In x xs → P x) → All P xs
  All-intro P [] h = all_nil
  All-intro P (x ∷ xs) h = all_cons (h x (first refl)) (All-intro P xs (λ y m. h y (later m)))

pub last?-In {ℓ} : {A : Type ℓ} (xs : List A) (x : A) → last? xs ≡ some x → In x xs
last?-In [] x h = cc
last?-In (y ∷ []) x h = first (cc)
last?-In (y ∷ z ∷ xs) x h = later (last?-In (z ∷ xs) x h)

pub last?-append {ℓ} : {A : Type ℓ} (xs : List A) (x : A) → last? (xs ++ x ∷ []) ≡ some x
last?-append [] x = refl
last?-append (y ∷ []) x = refl
last?-append (y ∷ z ∷ xs) x = last?-append (z ∷ xs) x

pub length-append {ℓ} : {A : Type ℓ} (xs ys : List A) → length (xs ++ ys) ≡ length xs + length ys
length-append [] ys = omega arith
length-append (x ∷ xs) ys = omega (arith, length-append xs ys)

pub In-cons {ℓ} : {A : Type ℓ} {x y : A} (xs : List A) → In x (y ∷ xs) → (x ≡ y) ⊎ In x xs
In-cons xs (first e) = inl e
In-cons xs (later m) = inr m

pub keep-In {ℓ} : {A : Type ℓ} (p : A → Bool) (xs : List A) (x : A) → In x (keep p xs) → In x xs
keep-In p [] x m = m
keep-In p (y ∷ xs) x m = elim (Bool-cases (p y)) [
  | inr out ↦ later (keep-In p xs x (rw out at m))
  | inl here ↦ elim (In-cons (keep p xs) (rw here at m)) [
    | inl e ↦ first e
    | inr k ↦ later (keep-In p xs x k)
  ]
]

module _ {ℓ} {A : Type ℓ} (p : A → Bool) where
  pub keep-snoc_in :
      (xs : List A) (x : A) → p x ≡ true → keep p (xs ++ x ∷ []) ≡ keep p xs ++ x ∷ []
  keep-snoc_in [] x h = rw h
  keep-snoc_in (y ∷ xs) x h = elim (Bool-cases (p y)) [
    | inl e ↦ rw e (ap (λ t. y ∷ t) (keep-snoc_in xs x h))
    | inr e ↦ rw e (keep-snoc_in xs x h)
  ]

  pub keep-snoc_out : (xs : List A) (x : A) → p x ≡ false → keep p (xs ++ x ∷ []) ≡ keep p xs
  keep-snoc_out [] x h = rw h
  keep-snoc_out (y ∷ xs) x h = elim (Bool-cases (p y)) [
    | inl e ↦ rw e (ap (λ t. y ∷ t) (keep-snoc_out xs x h))
    | inr e ↦ rw e (keep-snoc_out xs x h)
  ]

pub leb-lt : (a b : ℕ) → leb a b ≡ false → b < a
leb-lt a b h = ground arith

pub ltb-ge : (a b : ℕ) → ltb a b ≡ false → b ≤ a
ltb-ge a b h = ground arith

-- When no item fails the test, every item passes it.
pub is_nil-keep {ℓ} :
    {A : Type ℓ} (p : A → Bool) (xs : List A)
    → is_nil (keep (λ x. not (p x)) xs) ≡ true
    → (x : A) → In x xs
    → p x ≡ true
is_nil-keep p [] h x m = elim m [ ]
is_nil-keep p (y ∷ xs) h x m = elim (Bool-cases (p y)) [
  | inr out ↦ absurd (cc (rw out at h))
  | inl good ↦ elim (In-cons xs m) [
    | inl e ↦ rw e good
    | inr k ↦ is_nil-keep p xs (rw good at h) x k
  ]
]

pub keep-holds {ℓ} :
    {A : Type ℓ} (p : A → Bool) (xs : List A) (x : A) → In x (keep p xs) → p x ≡ true
keep-holds p [] x m = elim m [ ]
keep-holds p (y ∷ xs) x m = elim (Bool-cases (p y)) [
  | inr out ↦ keep-holds p xs x (rw out at m)
  | inl here ↦ elim (In-cons (keep p xs) (rw here at m)) [
    | inl e ↦ rw e here
    | inr k ↦ keep-holds p xs x k
  ]
]

pub In-keep {ℓ} :
    {A : Type ℓ} (p : A → Bool) (xs : List A) (x : A) → In x xs → p x ≡ true → In x (keep p xs)
In-keep p [] x m h = elim m [ ]
In-keep p (y ∷ xs) x (first e) h = rw (← e, h) (first refl)
In-keep p (y ∷ xs) x (later m) h = elim (Bool-cases (p y)) [
  | inl here ↦ rw here (later (In-keep p xs x m h))
  | inr out ↦ rw out (In-keep p xs x m h)
]

pub map-In {ℓ κ} :
    {A : Type ℓ} {B : Type κ} (f : A → B) (xs : List A) (y : B)
    → In y (map f xs)
    → (x : A) × In x xs × (y ≡ f x)
map-In f [] y m = elim m [ ]
map-In f (z ∷ xs) y m = elim (In-cons (map f xs) m) [
  | inl e ↦ (z, first refl, e)
  | inr k ↦ let (x, n, e) = map-In f xs y k in (x, later n, e)
]

-- a list whose items are all in an empty list is empty
pub is_nil-subset {ℓ} :
    {A : Type ℓ} (xs ys : List A)
    → ((x : A) → In x xs → In x ys)
    → is_nil ys ≡ true
    → is_nil xs ≡ true
is_nil-subset [] ys sub h = refl
is_nil-subset (x ∷ xs) [] sub h = elim (sub x (first refl)) [ ]
is_nil-subset (x ∷ xs) (y ∷ ys) sub h = cc

pub any-In {ℓ} :
    {A : Type ℓ} (q : A → Bool) (xs : List A) → any q xs ≡ true → (x : A) × In x xs × (q x ≡ true)
any-In q [] h = cc
any-In q (x ∷ xs) h = elim (Bool-cases (q x)) [
  | inl here ↦ (x, first refl, here)
  | inr miss ↦ let (y, m, holds) = any-In q xs (rw miss at h) in (y, later m, holds)
]

pub In-any {ℓ} :
    {A : Type ℓ} (q : A → Bool) (xs : List A) (x : A) → In x xs → q x ≡ true → any q xs ≡ true
In-any q [] x m h = elim m [ ]
In-any q (y ∷ xs) x (first e) h = rw (← e, h) refl
In-any q (y ∷ xs) x (later m) h = ground (arith, In-any q xs x m h)

pub keep-append {ℓ} :
    {A : Type ℓ} (p : A → Bool) (xs ys : List A) → keep p (xs ++ ys) ≡ keep p xs ++ keep p ys
keep-append p [] ys = refl
keep-append p (x ∷ xs) ys = elim (Bool-cases (p x)) [
  | inl e ↦ rw e (ap (λ t. x ∷ t) (keep-append p xs ys))
  | inr e ↦ rw e (keep-append p xs ys)
]

pub neither : (a b : Bool) → (a || b) ≡ false → (a ≡ false) × (b ≡ false)
neither a b h = ground arith

pub some_injective {ℓ} : {A : Type ℓ} {x y : A} → some x ≡ some y → x ≡ y
some_injective h = cc

pub le-leb : (a b : ℕ) → a ≤ b → leb a b ≡ true
le-leb a b h = ground arith

pub same_text : (s : String) → (s == s) ≡ true
same_text s = (eq_iff s s).1 refl

pub le-ltb : (a b : ℕ) → a ≤ b → ltb b a ≡ false
le-ltb a b h = ground arith

pub lt-leb : (a b : ℕ) → b < a → leb a b ≡ false
lt-leb a b h = ground arith

pub nat_eq_refl : (n : ℕ) → nat_eq n n ≡ true
nat_eq_refl n = ground arith

pub not-true : (b : Bool) → not b ≡ true → b ≡ false
not-true true h = sym h
not-true false h = refl

abbrev pub bool_eq : Bool → Bool → Bool
bool_eq a b = if a then b else not b

abbrev pub nats_eq : List ℕ → List ℕ → Bool
nats_eq [] [] = true
nats_eq (x ∷ xs) (y ∷ ys) = nat_eq x y && nats_eq xs ys
nats_eq _ _ = false

-- the lists that a function gives, one after the other
abbrev pub concat_map {ℓ κ} : {A : Type ℓ} {B : Type κ} → (A → List B) → List A → List B
concat_map f [] = []
concat_map f (x ∷ xs) = f x ++ concat_map f xs

pub In-append {ℓ} : {A : Type ℓ} {x : A} (xs ys : List A) → In x (xs ++ ys) → In x xs ⊎ In x ys
In-append [] ys m = inr m
In-append (z ∷ xs) ys m = elim (In-cons (xs ++ ys) m) [
  | inl e ↦ inl (first e)
  | inr k ↦ elim (In-append xs ys k) [ inl here ↦ inl (later here) | inr there ↦ inr there ]
]

pub keep-some {ℓ} :
    {A : Type ℓ} (p : A → Bool) (xs : List A)
    → is_nil (keep p xs) ≡ false
    → (x : A) × In x xs × (p x ≡ true)
keep-some p [] h = absurd (cc h)
keep-some p (y ∷ xs) h = elim (Bool-cases (p y)) [
  | inl here ↦ (y, first refl, here)
  | inr out ↦ let (x, m, holds) = keep-some p xs (rw out at h) in (x, later m, holds)
]

pub not-false : (b : Bool) → b ≡ false → not b ≡ true
not-false b h = rw h refl

pub both_true : {a b : Bool} → a ≡ true → b ≡ true → (a && b) ≡ true
both_true h g = rw (h, g) refl

pub any-snoc {ℓ} :
    {A : Type ℓ} (p : A → Bool) (xs : List A) (x : A)
    → any p xs ≡ false
    → p x ≡ false
    → any p (xs ++ x ∷ []) ≡ false
any-snoc p [] x h g = rw g refl
any-snoc p (y ∷ xs) x h g = ground (arith, any-snoc p xs x)
