-- ===== src/Advice/Compare/Asked.antt =====
-- What `plan` asks the site for.
use veyra_demo.Advice.Assess.{Assessed, Run, status_of}
use veyra_demo.Advice.Checks.{Availability, onsite_required}
use veyra_demo.Advice.Compare.{
  Row, compare_checks, compare_row, is_compared, is_onsite, is_performed, moves, plan, plan_from,
  plan_step, row_before, rows_from, same_effect, same_part,
}
use veyra_demo.Advice.Rank.{RankedCheck}
use veyra_demo.Engine.Outcomes.{Outcome, find_key, find_table, splits}
use veyra_demo.Ledger.Scores.{Score, part_scores, top_part, weigh}
use veyra_demo.Ledger.SiteResults.{SiteResult}
use veyra_demo.Prelude.{
  &&_split, Bool, Bool-cases, In, In-append, In-cons, List, Option, String, [], any, any-snoc, ap,
  arith, eq_iff, false, first, inl, inr, is_nil, keep, keep-some, later, leb, leb-lt, length,
  length-append, map, neither, none, not, not-true, refl, some, some_injective, subst, sym, true, ℕ,
  ◌++◌, ◌+◌, ◌||◌, ◌∙◌, ◌∷◌, ◌≡◌, ◌≢◌, ◌≤◌, ◌⊎◌,
}
use veyra_demo.Prelude.Sort.{In-sort_by}
use veyra_demo.Python.Value.{get, is_str}

-- the scores that `compare` starts from
abbrev pub base_scores : Run → Assessed → List (String × SiteResult) → List (String × Score)
base_scores run a results =
    part_scores (status_of run) (map (λ n. n.part) a.cannot_tell_apart) results

-- an outcome of a check after which another part, or no part, would be on top
pub record MovesTop (base : List (String × Score)) (check_id : String) : Type 0 where
  pub name : String
  pub outcome : Outcome
  pub listed : In (name, outcome) (find_table check_id splits)
  pub moved : top_part (weigh outcome base) ≢ top_part base

-- A row of `compare` for a check of the run.
record IsRowOf (run : Run) (a : Assessed) (results : List (String × SiteResult)) (r : Row)
    : Type 0 where
  of_run : In r.check run.checks
  compared : is_compared r.check ≡ true
  done_by : r.done ≡ is_performed results r.check.check.id
  changes :
      r.could_change
      ≡ map
          (λ o. o.1.label)
          (keep (λ o. moves (base_scores run a results) o.1) (find_table r.check.check.id splits))

rows_from-In :
    (row : ℕ → RankedCheck → Row) (n : ℕ) (checks : List RankedCheck) (r : Row)
    → In r (rows_from row n checks)
    → (k : ℕ) × (c : RankedCheck) × In c checks × (is_compared c ≡ true) × (r ≡ row k c)
unfolding rows_from
rows_from-In row n [] r m = elim m [ ]
rows_from-In row n (c ∷ cs) r m = elim (Bool-cases (is_compared c)) [
  | inr skipped ↦ further (rows_from-In row (n + 1) cs r (rw skipped at m))
  | inl taken ↦ elim (In-cons (rows_from row (n + 1) cs) (rw taken at m)) [
    | inl e ↦ (n, c, first refl, taken, e)
    | inr k ↦ further (rows_from-In row (n + 1) cs r k)
  ]
]
  where
    further :
        (k : ℕ) × (d : RankedCheck) × In d cs × (is_compared d ≡ true) × (r ≡ row k d)
        → (k : ℕ) × (d : RankedCheck) × In d (c ∷ cs) × (is_compared d ≡ true) × (r ≡ row k d)
    further (k, d, j, good, e) = (k, d, later j, good, e)

compare_checks-IsRowOf :
    (run : Run) (a : Assessed) (results : List (String × SiteResult)) (r : Row)
    → In r (compare_checks run a results)
    → IsRowOf run a results r
unfolding compare_checks compare_row
compare_checks-IsRowOf run a results r m =
    let parts = map (λ n. n.part) a.cannot_tell_apart in
    let row = compare_row run parts (base_scores run a results) results in
    let (k, c, j, good, e) =
      rows_from-In row 1 run.checks r (In-sort_by row_before (rows_from row 1 run.checks) r m) in
    subst (IsRowOf run a results) (sym e)
      (record { of_run = j; compared = good; done_by = refl; changes = refl })

same_part_refl : (o : Option String) → same_part o o ≡ true
same_part_refl none = refl
same_part_refl (some d) = (eq_iff d d).1 refl

some_label : (os : List (String × Outcome)) → is_nil (map (λ o. o.1.label) os) ≡ is_nil os
some_label [] = refl
some_label (o ∷ os) = refl

decisive-MovesTop :
    (run : Run) (a : Assessed) (results : List (String × SiteResult)) (r : Row)
    → IsRowOf run a results r
    → is_nil r.could_change ≡ false
    → MovesTop (base_scores run a results) r.check.check.id
decisive-MovesTop run a results r row h =
    let base = base_scores run a results in
    let table = find_table r.check.check.id splits in
    let ((name, o), m, moved) =
      keep-some (λ x. moves base x.1) table
        (sym (some_label (keep (λ x. moves base x.1) table)) ∙ sym (ap is_nil row.changes) ∙ h) in
    record {
      name = name;
      outcome = o;
      listed = m;
      moved = λ same. cc (rw same at moved, same_part_refl (top_part base));
    }

-- The test that `plan` passes a row by, its number aside.
abbrev can_ask : Row → Bool
can_ask r = not (is_onsite r || r.done || is_nil r.could_change)

step-In :
    (most : ℕ) (picked : List Row) (r x : Row)
    → In x (plan_step most picked r)
    → In x picked ⊎ ((x ≡ r) × (can_ask x ≡ true))
step-In most picked r x m =
    elim (Bool-cases (is_onsite r || r.done || is_nil r.could_change || leb most (length picked))) [
      | inl passed ↦ inl (rw passed at m)
      | inr asked ↦ elim (Bool-cases (any (λ p. same_effect p r) picked)) [
        | inl seen ↦ inl (rw (asked, seen) at m)
        | inr new ↦ elim (In-append picked (r ∷ []) (rw (asked, new) at m)) [
          | inl old ↦ inl old
          | inr k ↦ elim (In-cons [] k) [
            | inr gone ↦ elim gone [ ]
            | inl e ↦ inr (
              e,
              subst (λ y. can_ask y ≡ true) (sym e)
                  (rw (neither _ (leb most (length picked)) asked).0 refl),
            )
          ]
        ]
      ]
    ]

from-In :
    (most : ℕ) (rs picked : List Row) (x : Row)
    → In x (plan_from most picked rs)
    → In x picked ⊎ (In x rs × (can_ask x ≡ true))
unfolding plan_from
from-In most [] picked x m = inl m
from-In most (r ∷ rs) picked x m = elim (from-In most rs (plan_step most picked r) x m) [
  | inr (k, good) ↦ inr (later k, good)
  | inl now ↦ elim (step-In most picked r x now) [
    | inl old ↦ inl old
    | inr (e, good) ↦ inr (first e, good)
  ]
]

-- What is asked of the site for one row.
pub record IsAsked (run : Run) (a : Assessed) (results : List (String × SiteResult)) (r : Row)
    : Type 0 where
  pub of_run : In r.check run.checks
  pub recommendable : r.check.eligibility_now.eligible ≡ true
  pub remote : r.check.availability.state ≢ onsite_required
  pub new :
      (x : SiteResult)
      → find_key r.check.check.id results ≡ some x
      → is_str "performed" (get "status" x.payload) ≡ false
  pub decisive : MovesTop (base_scores run a results) r.check.check.id

not_performed_yet :
    (i : String) (results : List (String × SiteResult)) (x : SiteResult)
    → is_performed results i ≡ false
    → find_key i results ≡ some x
    → is_str "performed" (get "status" x.payload) ≡ false
not_performed_yet i results x h e = go (find_key i results) e h
  where
    go :
        (o : Option SiteResult)
        → o ≡ some x
        → elim o as (λ y. Bool) [
          | none ↦ false
          | some r ↦ is_str "performed" (get "status" r.payload)
        ]
          ≡ false
        → is_str "performed" (get "status" x.payload) ≡ false
    go none k g = cc
    go (some y) k g =
        subst (λ (z : SiteResult). is_str "performed" (get "status" z.payload) ≡ false)
          (some_injective k) g

stays_remote :
    (v : Availability)
    → elim v as (λ y. Bool) [ onsite_required ↦ true | _ ↦ false ] ≡ false
    → v ≢ onsite_required
stays_remote v h e = cc (ap (λ y. elim y as (λ z. Bool) [ onsite_required ↦ true | _ ↦ false ]) e)

-- Every check that `plan` asks for is an eligible check of the run, needs nobody on site, was not performed yet, and has a
-- named outcome after which another part, or none, would be on top of the scores that the results so far give.
pub plan-IsAsked :
    (run : Run) (a : Assessed) (most : ℕ) (results : List (String × SiteResult)) (r : Row)
    → In r (plan run a most results)
    → IsAsked run a results r
unfolding plan
plan-IsAsked run a most results r m = elim (from-In most (compare_checks run a results) [] r m) [
  | inl nothing ↦ elim nothing [ ]
  | inr (k, good) ↦
      let row = compare_checks-IsRowOf run a results r k in
      let (before, decisive) =
        neither (is_onsite r || r.done) (is_nil r.could_change) (not-true _ good) in
      let (remote, new) = neither (is_onsite r) r.done before in
      record {
        of_run = row.of_run;
        recommendable = (&&_split _ r.check.eligibility_now.eligible row.compared).1;
        remote = stays_remote r.check.availability.state remote;
        new = λ x. not_performed_yet r.check.check.id results x (sym row.done_by ∙ new);
        decisive = decisive-MovesTop run a results r row decisive;
      }
]

-- No two rows, in either order, have the same effect.
abbrev pub Apart : List Row → Type 0
Apart [] = Unit
Apart (r ∷ rs) = (any (same_effect r) rs ≡ false) × Apart rs

step-bounded :
    (most : ℕ) (picked : List Row) (r : Row)
    → length picked ≤ most
    → length (plan_step most picked r) ≤ most
step-bounded most picked r h =
    elim (Bool-cases (is_onsite r || r.done || is_nil r.could_change || leb most (length picked))) [
      | inl passed ↦ rw passed h
      | inr asked ↦ elim (Bool-cases (any (λ p. same_effect p r) picked)) [
        | inl seen ↦ rw (asked, seen) h
        | inr new ↦
            rw (asked, new, length-append picked (r ∷ []))
              (omega (
                arith,
                leb-lt most (length picked)
                    (neither (is_onsite r || r.done || is_nil r.could_change)
                      (leb most (length picked)) asked).1,
              ))
      ]
    ]

from-bounded :
    (most : ℕ) (rs picked : List Row)
    → length picked ≤ most
    → length (plan_from most picked rs) ≤ most
unfolding plan_from
from-bounded most [] picked h = h
from-bounded most (r ∷ rs) picked h =
    from-bounded most rs (plan_step most picked r) (step-bounded most picked r h)

Apart-snoc :
    (rs : List Row) (r : Row)
    → Apart rs
    → any (λ p. same_effect p r) rs ≡ false
    → Apart (rs ++ r ∷ [])
Apart-snoc [] r d h = (refl, tt)
Apart-snoc (x ∷ xs) r (fresh, d) h =
    let (apart, others) = neither (same_effect x r) (any (λ p. same_effect p r) xs) h in
    (any-snoc (same_effect x) xs r fresh apart, Apart-snoc xs r d others)

step-Apart :
    (most : ℕ) (picked : List Row) (r : Row) → Apart picked → Apart (plan_step most picked r)
step-Apart most picked r d =
    elim (Bool-cases (is_onsite r || r.done || is_nil r.could_change || leb most (length picked))) [
      | inl passed ↦ rw passed d
      | inr asked ↦ elim (Bool-cases (any (λ p. same_effect p r) picked)) [
        | inl seen ↦ rw (asked, seen) d
        | inr new ↦ rw (asked, new) (Apart-snoc picked r d new)
      ]
    ]

from-Apart : (most : ℕ) (rs picked : List Row) → Apart picked → Apart (plan_from most picked rs)
unfolding plan_from
from-Apart most [] picked d = d
from-Apart most (r ∷ rs) picked d =
    from-Apart most rs (plan_step most picked r) (step-Apart most picked r d)

-- `plan` asks for at most the given number of checks, and no two of them have the same effect.
pub plan-Apart :
    (run : Run) (a : Assessed) (most : ℕ) (results : List (String × SiteResult))
    → (length (plan run a most results) ≤ most) × Apart (plan run a most results)
unfolding plan
plan-Apart run a most results = (
  from-bounded most (compare_checks run a results) [] (omega arith),
  from-Apart most (compare_checks run a results) [] tt,
)
