-- ===== src/Advice/Rank/Order.antt =====
-- The order of the ranked checks, and that none is lost.
use veyra_demo.Advice.Catalog.{CatalogCheck, catalog}
use veyra_demo.Advice.Checks.{Facts, MachineProfile}
use veyra_demo.Advice.Rank.{
  RankedCheck, availability_order, disruption_order, flag, key_before, rank, ranks_before, row_of,
}
use veyra_demo.Prelude.{
  Bool, In, In-map, List, Option, String, [], ap, arith, false, length, map, map-In, none, not,
  refl, some, subst, sym, true, ℕ, ◌++◌, ◌<◌, ◌↔◌, ◌∷◌, ◌≡◌,
}
use veyra_demo.Prelude.Sort.{
  In-sort_by, InOrder, lex_lt, lex_lt_asym, lex_lt_trans, sort_by-In, sort_by-InOrder,
}
use veyra_demo.Python.Text.{text_le}
use veyra_demo.Python.Text.Order.{text_lt_asym, text_lt_trans}

ranks_before_asym : (a b : RankedCheck) → ranks_before a b ≡ true → ranks_before b a ≡ false
unfolding ranks_before
ranks_before_asym a b = lex_lt_asym (key_before a) (key_before b) _ _ (
    lex_lt_asym (length b.informs ∷ disruption_order a.check.disruption ∷ [])
      (length a.informs ∷ disruption_order b.check.disruption ∷ []) _ _
      (text_lt_asym a.check.id b.check.id))

counted_trans :
    (la lb lc da db dc : ℕ) (t u v : Bool)
    → (t ≡ false → u ≡ false → v ≡ false)
    → lex_lt (lb ∷ da ∷ []) (la ∷ db ∷ []) t ≡ false
    → lex_lt (lc ∷ db ∷ []) (lb ∷ dc ∷ []) u ≡ false
    → lex_lt (lc ∷ da ∷ []) (la ∷ dc ∷ []) v ≡ false
counted_trans la lb lc da db dc t u v h p q = ground arith

ranks_before_trans :
    (a b c : RankedCheck)
    → ranks_before a b ≡ false
    → ranks_before b c ≡ false
    → ranks_before a c ≡ false
unfolding ranks_before
ranks_before_trans a b c = lex_lt_trans (key_before a) (key_before b) (key_before c) _ _ _ (
    counted_trans (length a.informs) (length b.informs) (length c.informs)
      (disruption_order a.check.disruption) (disruption_order b.check.disruption)
      (disruption_order c.check.disruption) _ _ _ (text_lt_trans a.check.id b.check.id c.check.id))

-- Why one key is below another: the first numbers that differ, or else what decides between equal keys.
data LexBelow (last : Bool) : List ℕ → List ℕ → Type 0 where
  lex_less : {x y : ℕ} {xs ys : List ℕ} → x < y → LexBelow last (x ∷ xs) (y ∷ ys)
  lex_same :
      {x y : ℕ} {xs ys : List ℕ} → x ≡ y → LexBelow last xs ys → LexBelow last (x ∷ xs) (y ∷ ys)
  lex_end : last ≡ true → LexBelow last [] []

LexBelow-lt : {last : Bool} {xs ys : List ℕ} → LexBelow last xs ys → lex_lt xs ys last ≡ true
LexBelow-lt (lex_less h) = ground arith
LexBelow-lt (lex_same h rest) = ground (arith, LexBelow-lt rest)
LexBelow-lt (lex_end h) = h

-- The first check is the better one by one test that it passes and the other does not.
abbrev pub Better : Bool → Bool → Type 0
Better a b = (a ≡ true) × (b ≡ false)

abbrev pub has_precedent : RankedCheck → Bool
has_precedent r = elim r.precedent [ none ↦ false | some _ ↦ true ]

-- On everything that counts more, the two checks are equal.
pub record SameToDo (a b : RankedCheck) : Type 0 where
  pub objective : a.objective_match ≡ b.objective_match
  pub to_do : a.already_answered ≡ b.already_answered

pub record SameReason (a b : RankedCheck) : Type 0 where
  pub to_do : SameToDo a b
  pub precedent : has_precedent a ≡ has_precedent b
  pub trigger : a.is_triggered ≡ b.is_triggered

pub record SameAccess (a b : RankedCheck) : Type 0 where
  pub reason : SameReason a b
  pub access : availability_order a.availability.state ≡ availability_order b.availability.state
  pub informs : length a.informs ≡ length b.informs

-- Why one check ranks above another.
pub data RanksAbove (a b : RankedCheck) : Type 0 where
  by_objective : Better a.objective_match b.objective_match → RanksAbove a b
  by_to_do :
      a.objective_match ≡ b.objective_match
      → Better b.already_answered a.already_answered
      → RanksAbove a b
  by_precedent : SameToDo a b → Better (has_precedent a) (has_precedent b) → RanksAbove a b
  by_trigger :
      SameToDo a b
      → has_precedent a ≡ has_precedent b
      → Better a.is_triggered b.is_triggered
      → RanksAbove a b
  by_availability :
      SameReason a b
      → availability_order a.availability.state < availability_order b.availability.state
      → RanksAbove a b
  by_informs :
      SameReason a b
      → availability_order a.availability.state ≡ availability_order b.availability.state
      → length b.informs < length a.informs
      → RanksAbove a b
  by_disruption :
      SameAccess a b
      → disruption_order a.check.disruption < disruption_order b.check.disruption
      → RanksAbove a b
  by_check_id :
      SameAccess a b
      → disruption_order a.check.disruption ≡ disruption_order b.check.disruption
      → text_le b.check.id a.check.id ≡ false
      → RanksAbove a b

flag_less : (a b : Bool) → Better a b → flag a < flag b
flag_less a b (h, g) = rw (h, g) (omega arith)

-- what decides when all that counts more is equal
abbrev rest_key : RankedCheck → RankedCheck → Bool
rest_key a b =
    lex_lt (length b.informs ∷ disruption_order a.check.disruption ∷ [])
      (length a.informs ∷ disruption_order b.check.disruption ∷ [])
      (not (text_le b.check.id a.check.id))

rest_below :
    (a b : RankedCheck)
    → LexBelow
        (not (text_le b.check.id a.check.id))
        (length b.informs ∷ disruption_order a.check.disruption ∷ [])
        (length a.informs ∷ disruption_order b.check.disruption ∷ [])
    → rest_key a b ≡ true
rest_below a b h = LexBelow-lt h

module _ {a b : RankedCheck} where
  after_to_do :
      {xs ys : List ℕ}
      → SameToDo a b
      → LexBelow (rest_key a b) xs ys
      → LexBelow
          (rest_key a b)
          (flag a.objective_match ∷ flag (not a.already_answered) ∷ xs)
          (flag b.objective_match ∷ flag (not b.already_answered) ∷ ys)
  after_to_do s h = lex_same (ap flag s.objective) (lex_same (ap (λ x. flag (not x)) s.to_do) h)

  after_reason :
      {xs ys : List ℕ}
      → SameReason a b
      → LexBelow (rest_key a b) xs ys
      → LexBelow
          (rest_key a b)
          (flag a.objective_match
            ∷ flag (not a.already_answered)
            ∷ flag (has_precedent a)
            ∷ flag a.is_triggered
            ∷ xs)
          (flag b.objective_match
            ∷ flag (not b.already_answered)
            ∷ flag (has_precedent b)
            ∷ flag b.is_triggered
            ∷ ys)
  after_reason s h =
      after_to_do s.to_do (lex_same (ap flag s.precedent) (lex_same (ap flag s.trigger) h))

  after_access :
      SameReason a b
      → availability_order a.availability.state ≡ availability_order b.availability.state
      → rest_key a b ≡ true
      → LexBelow (rest_key a b) (key_before a) (key_before b)
  after_access s same h = after_reason s (lex_same same (lex_end h))

  RanksAbove-below : RanksAbove a b → LexBelow (rest_key a b) (key_before a) (key_before b)
  RanksAbove-below (by_objective h) = lex_less (flag_less _ _ h)
  RanksAbove-below (by_to_do same (h, g)) =
      lex_same (ap flag same) (lex_less (rw (h, g) (omega arith)))
  RanksAbove-below (by_precedent s h) = after_to_do s (lex_less (flag_less _ _ h))
  RanksAbove-below (by_trigger s same h) =
      after_to_do s (lex_same (ap flag same) (lex_less (flag_less _ _ h)))
  RanksAbove-below (by_availability s h) = after_reason s (lex_less h)
  RanksAbove-below (by_informs s same h) = after_access s same (rest_below a b (lex_less h))
  RanksAbove-below (by_disruption s h) =
      after_access s.reason s.access (rest_below a b (lex_same (sym s.informs) (lex_less h)))
  RanksAbove-below (by_check_id s same h) =
      after_access s.reason s.access
        (rest_below a b (lex_same (sym s.informs) (lex_same same (lex_end (rw h refl)))))

  RanksAbove-before : RanksAbove a b → ranks_before a b ≡ true
  unfolding ranks_before
  RanksAbove-before above = LexBelow-lt (RanksAbove-below above)

InOrder-split :
    (xs : List RankedCheck) (x : RankedCheck) (ys : List RankedCheck)
    → InOrder ranks_before (xs ++ x ∷ ys)
    → (y : RankedCheck) → In y ys
    → ranks_before y x ≡ false
InOrder-split [] x ys (low, d) y m = low y m
InOrder-split (z ∷ zs) x ys (low, d) y m = InOrder-split zs x ys d y m

both_ways : {b : Bool} → b ≡ true → b ≡ false → ⊥
both_ways h g = cc

-- No check stands below one that it ranks above. What counts first is that it serves the objective, then that it is still
-- to be done, then that it settled a similar case, that something triggers it, how available it is, how many open
-- domains it informs, how little it disrupts, and last its id.
pub rank-InOrder :
    (show : ℕ → String) (part_statuses : List (String × String)) (f : Facts) (goal : String)
    (profile : Option MachineProfile) (xs : List RankedCheck) (x : RankedCheck)
    (ys : List RankedCheck)
    → rank show part_statuses f goal profile ≡ xs ++ x ∷ ys
    → (y : RankedCheck) → In y ys
    → ¬ RanksAbove y x
unfolding rank
rank-InOrder show part_statuses f goal profile xs x ys h y m above =
    let sorted_rows =
      sort_by-InOrder ranks_before ranks_before_asym ranks_before_trans
        (map (row_of show part_statuses f goal profile) catalog) in
    absurd (
      both_ways (RanksAbove-before above)
        (InOrder-split xs x ys (subst (InOrder ranks_before) h sorted_rows) y m))

-- The ranked checks are the rows of the catalog, every one of them and nothing else.
pub rank_iff :
    (show : ℕ → String) (part_statuses : List (String × String)) (f : Facts) (goal : String)
    (profile : Option MachineProfile) (r : RankedCheck)
    → In r (rank show part_statuses f goal profile)
      ↔ ((c : CatalogCheck) × In c catalog × (r ≡ row_of show part_statuses f goal profile c))
unfolding rank
rank_iff show part_statuses f goal profile r = (
  λ m. map-In (row_of show part_statuses f goal profile) catalog r (In-sort_by ranks_before _ r m),
  λ k. sort_by-In ranks_before _ r (
      subst (λ x. In x (map (row_of show part_statuses f goal profile) catalog)) (sym k.2)
        (In-map (row_of show part_statuses f goal profile) catalog k.1)),
)
