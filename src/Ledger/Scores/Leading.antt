-- ===== src/Ledger/Scores/Leading.antt =====
-- The part on top.
use veyra_demo.Ledger.Scores.{Score, ahead, exceeds, lead_part, ranked_parts, scores_more, top_part}
use veyra_demo.Prelude.{
  Bool-cases, In, In-cons, List, String, [], arith, false, first, inl, inr, refl, some,
  some_injective, subst, true, ℕ, ◌∙◌, ◌∷◌, ◌≡◌, ◌⊎◌,
}
use veyra_demo.Prelude.Sort.{In-sort_by, InOrder, sort_by-In, sort_by-InOrder}

not_above : (a b : Score) → exceeds 1 a b ≡ true → exceeds 1 b a ≡ false
not_above a b h = ground arith

above_trans :
    (a b c : Score) → exceeds 1 a b ≡ false → exceeds 1 b c ≡ false → exceeds 1 a c ≡ false
above_trans a b c h g = ground arith

-- A part that is ahead of every other one by `n`, at least.
pub record IsAhead (n : ℕ) (t : List (String × Score)) (d : String) : Type 0 where
  pub score : Score
  pub scored : In (d, score) t
  pub alone : (q : String × Score) → In q t → (q ≡ (d, score)) ⊎ (exceeds n score q.1 ≡ true)

far_above :
    (n : ℕ) (a b c : Score) → exceeds n a b ≡ true → exceeds 1 c b ≡ false → exceeds n a c ≡ true
far_above n a b c h g = ground arith

ahead-IsAhead :
    (n : ℕ) (t : List (String × Score)) (d : String)
    → InOrder scores_more t
    → ahead n t ≡ some d
    → IsAhead n t d
ahead-IsAhead n [] d s h = cc
ahead-IsAhead n (r ∷ []) d s h =
    let same : r.0 ≡ d = some_injective h in
    record {
      score = r.1;
      scored = first (subst (λ x. (x, r.1) ≡ r) same refl);
      alone = λ q m. elim (In-cons [] m) [
        | inl e ↦ inl (e ∙ subst (λ x. r ≡ (x, r.1)) same refl)
        | inr k ↦ elim k [ ]
      ];
    }
ahead-IsAhead n (r ∷ q ∷ rest) d (below_r, (below_q, s)) h = elim (Bool-cases (exceeds n r.1 q.1)) [
  | inr close ↦ cc (rw close at h)
  | inl far ↦
      let same : r.0 ≡ d = some_injective (rw far at h) in
      record {
        score = r.1;
        scored = first (subst (λ x. (x, r.1) ≡ r) same refl);
        alone = λ p m. elim (In-cons (q ∷ rest) m) [
          | inl e ↦ inl (e ∙ subst (λ x. r ≡ (x, r.1)) same refl)
          | inr k ↦ inr (elim (In-cons rest k) [
            | inl e ↦ rw e far
            | inr j ↦ far_above n r.1 q.1 p.1 far (below_q p j)
          ])
        ];
      }
]

of_ranked :
    (n : ℕ) (t : List (String × Score)) (d : String) → IsAhead n (ranked_parts t) d → IsAhead n t d
of_ranked n t d a = record {
  score = a.score;
  scored = In-sort_by scores_more t (d, a.score) a.scored;
  alone = λ q m. a.alone q (sort_by-In scores_more t q m);
}

-- The part on top scores more than every other part.
pub top_part-IsAhead :
    (t : List (String × Score)) (d : String) → top_part t ≡ some d → IsAhead 1 t d
unfolding top_part
top_part-IsAhead t d h = of_ranked 1 t d (
    ahead-IsAhead 1 (ranked_parts t) d
      (sort_by-InOrder scores_more (λ a b. not_above a.1 b.1) (λ a b c. above_trans a.1 b.1 c.1) t)
      h)

-- The lead scores at least two more than every other part.
pub lead_part-IsAhead :
    (t : List (String × Score)) (d : String) → lead_part t ≡ some d → IsAhead 2 t d
unfolding lead_part
lead_part-IsAhead t d h = of_ranked 2 t d (
    ahead-IsAhead 2 (ranked_parts t) d
      (sort_by-InOrder scores_more (λ a b. not_above a.1 b.1) (λ a b c. above_trans a.1 b.1 c.1) t)
      h)
