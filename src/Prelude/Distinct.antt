-- ===== src/Prelude/Distinct.antt =====
-- Lists of texts without repetition, as the keys of a table are.
use veyra_demo.Prelude.{
  Bool, Bool-cases, In, In-cons, In-elem, In-map, List, String, [], ap, ap₂, arith, elem, eq_iff,
  false, inl, inr, keep, map, neither, refl, subst, sym, ◌++◌, ◌==◌, ◌∙◌, ◌∷◌, ◌≡◌,
}

abbrev pub Distinct : List String → Type 0
Distinct [] = Unit
Distinct (x ∷ xs) = (elem x xs ≡ false) × Distinct xs

elem-snoc :
    (s x : String) (xs : List String)
    → elem s xs ≡ false
    → (x == s) ≡ false
    → elem s (xs ++ x ∷ []) ≡ false
elem-snoc s x [] h g = rw g refl
elem-snoc s x (y ∷ ys) h g = ground (arith, elem-snoc s x ys)

other_text : (s t : String) → (s == t) ≡ false → (t == s) ≡ false
other_text s t h = elim (Bool-cases (t == s)) [
  | inl same ↦ cc (rw ((eq_iff s t).1 (sym ((eq_iff t s).0 same))) at h)
  | inr other ↦ other
]

pub Distinct-snoc :
    (x : String) (xs : List String) → Distinct xs → elem x xs ≡ false → Distinct (xs ++ x ∷ [])
Distinct-snoc x [] d h = (refl, tt)
Distinct-snoc x (y ∷ ys) (fresh, d) h =
    let (apart, absent) = neither (y == x) (elem x ys) h in
    (elem-snoc y x ys fresh (other_text y x apart), Distinct-snoc x ys d absent)

module _ {A : Type 0} (key : A → String) where
  elem-keep :
      (p : A → Bool) (s : String) (xs : List A)
      → elem s (map key xs) ≡ false
      → elem s (map key (keep p xs)) ≡ false
  elem-keep p s [] h = refl
  elem-keep p s (x ∷ xs) h =
      let (apart, absent) = neither (key x == s) (elem s (map key xs)) h in
      elim (Bool-cases (p x)) [
        | inl kept ↦ rw (kept, apart) (elem-keep p s xs absent)
        | inr out ↦ rw out (elem-keep p s xs absent)
      ]

  pub Distinct-keep :
      (p : A → Bool) (xs : List A) → Distinct (map key xs) → Distinct (map key (keep p xs))
  Distinct-keep p [] d = tt
  Distinct-keep p (x ∷ xs) (fresh, d) = elim (Bool-cases (p x)) [
    | inl kept ↦ rw kept (elem-keep p (key x) xs fresh, Distinct-keep p xs d)
    | inr out ↦ rw out (Distinct-keep p xs d)
  ]

  pub map-snoc : (xs : List A) (x : A) → map key (xs ++ x ∷ []) ≡ map key xs ++ key x ∷ []
  map-snoc [] x = refl
  map-snoc (y ∷ ys) x = ap (λ t. key y ∷ t) (map-snoc ys x)

  pub Distinct-add :
      (xs : List A) (x : A)
      → Distinct (map key xs)
      → elem (key x) (map key xs) ≡ false
      → Distinct (map key (xs ++ x ∷ []))
  Distinct-add xs x d h =
      subst Distinct (sym (map-snoc xs x)) (Distinct-snoc (key x) (map key xs) d h)

  -- a change that leaves the keys alone
  pub map-same :
      (f : A → A) → ((x : A) → key (f x) ≡ key x) → (xs : List A) → map key (map f xs) ≡ map key xs
  map-same f same [] = refl
  map-same f same (x ∷ xs) = ap₂ (λ a b. a ∷ b) (same x) (map-same f same xs)

  -- with distinct keys, the key of an item finds no other
  pub Distinct-one :
      (xs : List A) (x y : A) → Distinct (map key xs) → In x xs → In y xs → key x ≡ key y → x ≡ y
  Distinct-one [] x y d m n e = elim m [ ]
  Distinct-one (z ∷ zs) x y (fresh, d) m n e = elim (In-cons zs m) [
    | inl x_z ↦ elim (In-cons zs n) [
      | inl y_z ↦ x_z ∙ sym y_z
      | inr k ↦ cc (
          rw
            (In-elem (key z) (map key zs)
              (subst (λ s. In s (map key zs)) (sym e ∙ ap key x_z) (In-map key zs k)))
            at fresh)
    ]
    | inr j ↦ elim (In-cons zs n) [
      | inl y_z ↦ cc (
          rw
            (In-elem (key z) (map key zs)
              (subst (λ s. In s (map key zs)) (e ∙ ap key y_z) (In-map key zs j)))
            at fresh)
      | inr k ↦ Distinct-one zs x y d j k e
    ]
  ]
