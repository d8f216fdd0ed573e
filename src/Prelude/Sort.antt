-- ===== src/Prelude/Sort.antt =====
-- Stable insertion sort, as `list.sort` and `sorted` order a list, and lexicographic tests.
use veyra_demo.Prelude.{
  Bool, Bool-cases, In, In-cons, List, [], ap, arith, false, first, if◌then◌else◌, inl, inr, later,
  length, ltb, refl, suc, true, ℕ, ◌∙◌, ◌∷◌, ◌≡◌,
}

module _ {ℓ} {A : Type ℓ} (before : A → A → Bool) where
  -- `x`, and then those that do not come before it
  abbrev pub insert_by : A → List A → List A
  insert_by x [] = x ∷ []
  insert_by x (y ∷ ys) = let rest = insert_by x ys in if before y x then y ∷ rest else x ∷ y ∷ ys

  abbrev pub sort_by : List A → List A
  sort_by [] = []
  sort_by (x ∷ xs) = insert_by x (sort_by xs)

  insert_by-In : (x y : A) (ys : List A) → In y (x ∷ ys) → In y (insert_by x ys)
  insert_by-In x y [] m = m
  insert_by-In x y (z ∷ zs) m = elim (Bool-cases (before z x)) [
    | inr stays ↦ rw stays m
    | inl past ↦ rw past (elim (In-cons (z ∷ zs) m) [
      | inl same ↦ later (insert_by-In x y zs (first same))
      | inr n ↦ elim (In-cons zs n) [
        | inl same ↦ first same
        | inr k ↦ later (insert_by-In x y zs (later k))
      ]
    ])
  ]

  In-insert_by : (x y : A) (ys : List A) → In y (insert_by x ys) → In y (x ∷ ys)
  In-insert_by x y [] m = m
  In-insert_by x y (z ∷ zs) m = elim (Bool-cases (before z x)) [
    | inr stays ↦ rw stays at m
    | inl past ↦ elim (In-cons (insert_by x zs) (rw past at m)) [
      | inl same ↦ later (first same)
      | inr n ↦ elim (In-cons zs (In-insert_by x y zs n)) [
        | inl same ↦ first same
        | inr k ↦ later (later k)
      ]
    ]
  ]

  pub sort_by-In : (xs : List A) (y : A) → In y xs → In y (sort_by xs)
  sort_by-In [] y m = m
  sort_by-In (x ∷ xs) y m =
      insert_by-In x y (sort_by xs)
        (elim (In-cons xs m) [ inl same ↦ first same | inr k ↦ later (sort_by-In xs y k) ])

  pub In-sort_by : (xs : List A) (y : A) → In y (sort_by xs) → In y xs
  In-sort_by [] y m = m
  In-sort_by (x ∷ xs) y m = elim (In-cons (sort_by xs) (In-insert_by x y (sort_by xs) m)) [
    | inl same ↦ first same
    | inr k ↦ later (In-sort_by xs y k)
  ]

  length-insert_by : (x : A) (ys : List A) → length (insert_by x ys) ≡ suc (length ys)
  length-insert_by x [] = refl
  length-insert_by x (y ∷ ys) = ground (arith, length-insert_by x ys)

  pub length-sort_by : (xs : List A) → length (sort_by xs) ≡ length xs
  length-sort_by [] = refl
  length-sort_by (x ∷ xs) = length-insert_by x (sort_by xs) ∙ ap suc (length-sort_by xs)

  -- No item comes before one that stands to its left.
  abbrev pub InOrder : List A → Type ℓ
  InOrder [] = Unit
  InOrder (x ∷ xs) = ((y : A) → In y xs → before y x ≡ false) × InOrder xs

  module _ (asym : (a b : A) → before a b ≡ true → before b a ≡ false)
      (trans : (a b c : A) → before a b ≡ false → before b c ≡ false → before a c ≡ false) where
    insert_by-InOrder : (x : A) (ys : List A) → InOrder ys → InOrder (insert_by x ys)
    insert_by-InOrder x [] d = (λ y m. elim m [ ], tt)
    insert_by-InOrder x (z ∷ zs) (low, d) = elim (Bool-cases (before z x)) [
      | inl past ↦ rw past (
        (λ y m. elim (In-cons zs (In-insert_by x y zs m)) [
          | inl same ↦ rw same (asym z x past)
          | inr k ↦ low y k
        ]),
        insert_by-InOrder x zs d,
      )
      | inr stays ↦ rw stays (
        (λ y m. elim (In-cons zs m) [
          | inl same ↦ rw same stays
          | inr k ↦ trans y z x (low y k) stays
        ]),
        (low, d),
      )
    ]

    pub sort_by-InOrder : (xs : List A) → InOrder (sort_by xs)
    sort_by-InOrder [] = tt
    sort_by-InOrder (x ∷ xs) = insert_by-InOrder x (sort_by xs) (sort_by-InOrder xs)

-- `xs < ys` of lists of numbers, where `last` decides between equal ones
abbrev pub lex_lt : List ℕ → List ℕ → Bool → Bool
lex_lt [] [] last = last
lex_lt [] (y ∷ ys) last = true
lex_lt (x ∷ xs) [] last = false
lex_lt (x ∷ xs) (y ∷ ys) last =
    let rest = lex_lt xs ys last in if ltb x y then true else if ltb y x then false else rest

pub lex_lt_asym :
    (xs ys : List ℕ) (a b : Bool)
    → (a ≡ true → b ≡ false)
    → lex_lt xs ys a ≡ true
    → lex_lt ys xs b ≡ false
lex_lt_asym [] [] a b h g = h g
lex_lt_asym [] (y ∷ ys) a b h g = refl
lex_lt_asym (x ∷ xs) [] a b h g = cc
lex_lt_asym (x ∷ xs) (y ∷ ys) a b h g = elim (Bool-cases (ltb x y)) [
  | inl lower ↦ ground arith
  | inr up ↦ elim (Bool-cases (ltb y x)) [
    | inl higher ↦ cc (rw (up, higher) at g)
    | inr even ↦ rw (up, even) (lex_lt_asym xs ys a b h (rw (up, even) at g))
  ]
]

pub lex_lt_trans :
    (xs ys zs : List ℕ) (a b c : Bool)
    → (a ≡ false → b ≡ false → c ≡ false)
    → lex_lt xs ys a ≡ false
    → lex_lt ys zs b ≡ false
    → lex_lt xs zs c ≡ false
lex_lt_trans [] [] [] a b c h p q = h p q
lex_lt_trans [] [] (z ∷ zs) a b c h p q = cc
lex_lt_trans [] (y ∷ ys) zs a b c h p q = cc
lex_lt_trans (x ∷ xs) ys [] a b c h p q = refl
lex_lt_trans (x ∷ xs) [] (z ∷ zs) a b c h p q = cc
lex_lt_trans (x ∷ xs) (y ∷ ys) (z ∷ zs) a b c h p q = ground (arith, lex_lt_trans xs ys zs a b c h)
