-- ===== src/Advice/Triage/Ownership.antt =====
-- Whom the program proposes as the owner.
use veyra_demo.Advice.Board.{Assessment, BoardRow}
use veyra_demo.Advice.Triage.{
  candidates_of, is_out, nobody, owner_of, owner_of_tied, propose, strength, stronger, tied_with,
}
use veyra_demo.Ledger.Entry.{Entry}
use veyra_demo.Prelude.{
  Bool, In, In-cons, In-keep, In-map, List, String, [], arith, false, first, if◌then◌else◌, inl,
  inr, keep, keep-In, keep-holds, leb, leb-lt, leb→le, map, map-In, nat_eq, not, refl, subst, sym,
  true, ℕ, ◌↔◌, ◌∷◌, ◌≡◌, ◌≤◌,
}
use veyra_demo.Prelude.Sort.{In-sort_by, InOrder, lex_lt, lex_lt_asym, sort_by-In, sort_by-InOrder}
use veyra_demo.Python.Text.Order.{text_lt_asym, text_lt_trans}

stronger_asym : (a b : String × Assessment) → stronger a b ≡ true → stronger b a ≡ false
stronger_asym a b =
    lex_lt_asym (strength b.1.status ∷ []) (strength a.1.status ∷ []) _ _ (text_lt_asym a.0 b.0)

lex_lt_down :
    (x y z : ℕ) (a b c : Bool)
    → (a ≡ false → b ≡ false → c ≡ false)
    → lex_lt (y ∷ []) (x ∷ []) a ≡ false
    → lex_lt (z ∷ []) (y ∷ []) b ≡ false
    → lex_lt (z ∷ []) (x ∷ []) c ≡ false
lex_lt_down x y z a b c h p q = ground arith

stronger_trans :
    (a b c : String × Assessment)
    → stronger a b ≡ false
    → stronger b c ≡ false
    → stronger a c ≡ false
stronger_trans a b c =
    lex_lt_down (strength a.1.status) (strength b.1.status) (strength c.1.status) _ _ _
      (text_lt_trans a.0 b.0 c.0)

not_stronger :
    (q c : String × Assessment) → stronger q c ≡ false → strength q.1.status ≤ strength c.1.status
not_stronger q c h = weaker (strength q.1.status) (strength c.1.status) _ h
  where
    weaker : (x y : ℕ) (a : Bool) → lex_lt (y ∷ []) (x ∷ []) a ≡ false → x ≤ y
    weaker x y a h = ground arith

nat_eq-eq : (a b : ℕ) → nat_eq a b ≡ true → a ≡ b
nat_eq-eq a b h = ground arith

eq-nat_eq : (a b : ℕ) → a ≡ b → nat_eq a b ≡ true
eq-nat_eq a b h = ground arith

-- A part that was not ruled out, shows a problem and shows at least as much as every other such part.
pub record IsStrongest (parts : List (String × Assessment)) (board : List BoardRow) (d : String)
    : Type 0 where
  pub shown : Assessment
  pub listed : In (d, shown) parts
  pub open_part : is_out board d ≡ false
  pub measured : 2 ≤ strength shown.status
  pub most :
      (q : String × Assessment)
      → In q parts
      → is_out board q.0 ≡ false
      → strength q.1.status ≤ strength shown.status

module _ (parts : List (String × Assessment)) (board : List BoardRow) where
  candidate :
      (q : String × Assessment)
      → In q (candidates_of parts board)
      → In q parts × (is_out board q.0 ≡ false)
  candidate q m =
      let k = In-sort_by stronger _ q m in
      (
        keep-In (λ p. not (is_out board p.0)) parts q k,
        turn (is_out board q.0) (keep-holds (λ p. not (is_out board p.0)) parts q k),
      )
    where
      turn : (b : Bool) → not b ≡ true → b ≡ false
      turn true h = cc
      turn false h = refl

  is_candidate :
      (q : String × Assessment)
      → In q parts
      → is_out board q.0 ≡ false
      → In q (candidates_of parts board)
  is_candidate q m h =
      sort_by-In stronger _ q (In-keep (λ p. not (is_out board p.0)) parts q m (rw h refl))

  module _ (teams names : String → String) (c : String × Assessment)
      (cs : List (String × Assessment)) (d : String)
      (below : (q : String × Assessment)
        → In q (c ∷ cs)
        → strength q.1.status ≤ strength c.1.status)
      (sound : (q : String × Assessment) → In q (c ∷ cs) → In q parts × (is_out board q.0 ≡ false))
      (all : (q : String × Assessment)
        → In q parts
        → is_out board q.0 ≡ false
        → In q (c ∷ cs)) where
    tied_owned :
        leb 2 (strength c.1.status) ≡ true
        → In d (map (λ q. q.0) (tied_with (strength c.1.status) (c ∷ cs)))
          ↔ IsStrongest parts board d
    tied_owned big = (there, back)
      where
        as_strong : String × Assessment → Bool
        as_strong q = nat_eq (strength q.1.status) (strength c.1.status)

        there : In d (map (λ q. q.0) (keep as_strong (c ∷ cs))) → IsStrongest parts board d
        there m =
            let (q, n, e) = map-In (λ q. q.0) (keep as_strong (c ∷ cs)) d m in
            let (listed, fine) = sound q (keep-In as_strong (c ∷ cs) q n) in
            let even = nat_eq-eq _ _ (keep-holds as_strong (c ∷ cs) q n) in
            subst (IsStrongest parts board) (sym e) (record {
              shown = q.1;
              listed = listed;
              open_part = fine;
              measured = omega (arith, even, leb→le 2 (strength c.1.status) big);
              most = λ p m out. omega (arith, even, below p (all p m out));
            })

        back : IsStrongest parts board d → In d (map (λ q. q.0) (keep as_strong (c ∷ cs)))
        back s =
            let here = all (d, s.shown) s.listed s.open_part in
            let (listed, fine) = sound c (first refl) in
            In-map (λ q. q.0) (keep as_strong (c ∷ cs))
              (In-keep as_strong (c ∷ cs) (d, s.shown) here
                (eq-nat_eq _ _ (omega (arith, below (d, s.shown) here, s.most c listed fine))))

    owned_first :
        (b : Bool)
        → leb 2 (strength c.1.status) ≡ b
        → In d
            (if b
              then owner_of_tied teams names (tied_with (strength c.1.status) (c ∷ cs))
              else nobody).owned
          ↔ IsStrongest parts board d
    owned_first true big = tied_owned big
    owned_first false small = (
      λ m. elim m [ ],
      λ s. absurd (
          omega (
            arith,
            s.measured,
            leb-lt 2 (strength c.1.status) small,
            below (d, s.shown) (all (d, s.shown) s.listed s.open_part),
          )),
    )

  owned_by :
      (teams names : String → String) (cs : List (String × Assessment)) (d : String)
      → InOrder stronger cs
      → ((q : String × Assessment) → In q cs → In q parts × (is_out board q.0 ≡ false))
      → ((q : String × Assessment) → In q parts → is_out board q.0 ≡ false → In q cs)
      → In d (owner_of teams names cs).owned ↔ IsStrongest parts board d
  unfolding owner_of
  owned_by teams names [] d order sound all =
      (λ m. elim m [ ], λ s. elim (all (d, s.shown) s.listed s.open_part) [ ])
  owned_by teams names (c ∷ cs) d (low, order) sound all =
      owned_first teams names c cs d
        (λ q m. elim (In-cons cs m) [
          | inl e ↦ rw e (omega arith)
          | inr k ↦ not_stronger q c (low q k)
        ])
        sound all (leb 2 (strength c.1.status)) refl

  -- The proposed owner covers exactly the parts that show the most: those that were not ruled out, show an anomaly or
  -- a delay, and at least as much as every other part that was not ruled out.
  pub propose-IsStrongest :
      (teams names : String → String) (interventions : List String) (ledger : List Entry)
      (d : String)
      → In d (propose teams names parts board interventions ledger).owner.owned
        ↔ IsStrongest parts board d
  unfolding propose
  propose-IsStrongest teams names interventions ledger d =
      owned_by teams names (candidates_of parts board) d
        (sort_by-InOrder stronger stronger_asym stronger_trans
          (keep (λ p. not (is_out board p.0)) parts))
        candidate is_candidate
