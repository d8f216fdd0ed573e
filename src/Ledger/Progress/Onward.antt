-- ===== src/Ledger/Progress/Onward.antt =====
-- A decision never returns to an earlier stage, and what a verified decision rests on.
use veyra_demo.Ledger.Entry.{Entry, ids}
use veyra_demo.Ledger.Progress.{
  DecisionState, actions_for, decision_state, is_action_of, is_among, is_outcome_of,
  is_review_of_outcome, outcomes_for, reviews_for, state_acted, state_decided,
  state_outcome_recorded, state_verification_rejected, state_verified,
}
use veyra_demo.Prelude.{
  &&_split, Bool, Bool-cases, In, In-any, In-append_left, In-keep, In-map, List, Option, String, [],
  any-In, ap, arith, eq_iff, false, if◌then◌else◌, inl, inr, is_nil, is_nil-subset, keep, keep-In,
  keep-holds, last?, last?-In, map-In, none, refl, some, subst, sym, true, ℕ, ◌&&◌, ◌++◌, ◌∙◌, ◌∷◌,
  ◌≡◌, ◌≤◌,
}
use veyra_demo.Python.Value.{Value, get, is_str, is_str-eq, str}

-- the stage of a decision: decided, acted on, outcome recorded, reviewed; verified and rejected share the last one
abbrev pub level : DecisionState → ℕ
level state_decided = 0
level state_acted = 1
level state_outcome_recorded = 2
level state_verified = 3
level state_verification_rejected = 3

-- the level, from whether there is an outcome, an action and a review
abbrev grade : Bool → Bool → Bool → ℕ
grade no_outcome no_action no_review =
    if no_outcome then (if no_action then 0 else 1) else (if no_review then 2 else 3)

last?-is_nil : (es : List Entry) → is_nil es ≡ elim (last? es) [ none ↦ true | some _ ↦ false ]
last?-is_nil [] = refl
last?-is_nil (e ∷ []) = refl
last?-is_nil (e ∷ d ∷ es) = last?-is_nil (d ∷ es)

review_level :
    (o : Option Entry)
    → level (elim o [
      | none ↦ state_outcome_recorded
      | some review ↦
          if is_str "accepted" (get "verdict" review.payload)
          then state_verified
          else state_verification_rejected
    ])
      ≡ (if elim o [ none ↦ true | some _ ↦ false ] then 2 else 3)
review_level none = refl
review_level (some review) = elim (Bool-cases (is_str "accepted" (get "verdict" review.payload))) [
  | inl yes_accepted ↦ rw yes_accepted refl
  | inr rejected_it ↦ rw rejected_it refl
]

level-grade :
    (es : List Entry) (d : String)
    → level (decision_state es d)
      ≡ grade (is_nil (outcomes_for es d)) (is_nil (actions_for es d)) (is_nil (reviews_for es d))
unfolding decision_state
level-grade es d = elim (Bool-cases (is_nil (outcomes_for es d))) [
  | inl no_outcome ↦ elim (Bool-cases (is_nil (actions_for es d))) [
    | inl no_action ↦ rw (no_outcome, no_action) refl
    | inr some_action ↦ rw (no_outcome, some_action) refl
  ]
  | inr some_outcome ↦
      rw (some_outcome, last?-is_nil (reviews_for es d)) (review_level (last? (reviews_for es d)))
]

grade_le :
    (a b c x y z : Bool)
    → (x ≡ true → a ≡ true)
    → (y ≡ true → b ≡ true)
    → (z ≡ true → c ≡ true)
    → grade a b c ≤ grade x y z
grade_le a b c x y z ha hb hc = ground arith

is_among_mono :
    (xs ys : List String) (v : Value)
    → ((i : String) → In i xs → In i ys)
    → is_among xs v ≡ true
    → is_among ys v ≡ true
is_among_mono xs ys v sub h =
    let (i, m, here) = any-In (λ i. is_str i v) xs h in In-any (λ i. is_str i v) ys i (sub i m) here

-- what a test keeps of a list, a weaker one keeps of a longer list
keep-grows :
    (p q : Entry → Bool) (es more : List Entry)
    → ((e : Entry) → p e ≡ true → q e ≡ true)
    → (e : Entry) → In e (keep p es)
    → In e (keep q (es ++ more))
keep-grows p q es more weaker e m =
    In-keep q (es ++ more) e (In-append_left es more (keep-In p es e m))
      (weaker e (keep-holds p es e m))

ids-grow :
    (xs ys : List Entry)
    → ((e : Entry) → In e xs → In e ys)
    → (i : String) → In i (ids xs)
    → In i (ids ys)
ids-grow xs ys sub i m =
    let (e, n, same) = map-In (λ (x : Entry). x.id) xs i m in
    subst (λ j. In j (ids ys)) (sym same) (In-map (λ x. x.id) ys (sub e n))

module _ (es more : List Entry) (d : String) where
  actions_grow : (i : String) → In i (actions_for es d) → In i (actions_for (es ++ more) d)
  actions_grow = ids-grow _ _ (keep-grows (is_action_of d) (is_action_of d) es more (λ _ h. h))

  outcomes_grow : (i : String) → In i (outcomes_for es d) → In i (outcomes_for (es ++ more) d)
  outcomes_grow = ids-grow _ _ (
      keep-grows _ _ es more λ e h.
        let (k, among) = &&_split _ _ h in
        both k (is_among_mono _ _ (get "action_id" e.payload) actions_grow among))
    where
      both : {a b : Bool} → a ≡ true → b ≡ true → (a && b) ≡ true
      both x y = ground arith

  reviews_grow : (e : Entry) → In e (reviews_for es d) → In e (reviews_for (es ++ more) d)
  reviews_grow = keep-grows _ _ es more λ e h.
      let (k, among) = &&_split _ _ h in
      both k (is_among_mono _ _ (get "outcome_id" e.payload) outcomes_grow among)
    where
      both : {a b : Bool} → a ≡ true → b ≡ true → (a && b) ≡ true
      both x y = ground arith

-- A decision only moves on as entries are added: from decided to acted, to a recorded outcome, to a
-- reviewed one; a later review may only turn the verdict.
pub decision_state_le :
    (es more : List Entry) (d : String)
    → level (decision_state es d) ≤ level (decision_state (es ++ more) d)
decision_state_le es more d =
    rw (level-grade es d, level-grade (es ++ more) d)
      (grade_le _ _ _ _ _ _ (is_nil-subset _ _ (outcomes_grow es more d))
        (is_nil-subset _ _ (actions_grow es more d)) (is_nil-subset _ _ (reviews_grow es more d)))

-- An accepted review of an outcome of a performed or simulated action of the decision.
pub record IsVerified (es : List Entry) (d : String) : Type 0 where
  pub review : Entry
  pub stored : In review es
  pub reviews : review.kind ≡ "outcome_review"
  pub accepted : get "verdict" review.payload ≡ str "accepted"
  pub result : Entry
  pub recorded : In result es
  pub of_outcome : (result.kind ≡ "outcome") × (get "outcome_id" review.payload ≡ str result.id)
  pub deed : Entry
  pub done : In deed es
  pub of_action : (get "action_id" result.payload ≡ str deed.id) × (is_action_of d deed ≡ true)

among-In :
    (xs : List Entry) (v : Value)
    → is_among (ids xs) v ≡ true
    → (e : Entry) × In e xs × (v ≡ str e.id)
among-In xs v h =
    let (i, m, here) = any-In (λ i. is_str i v) (ids xs) h in
    let (e, n, same) = map-In (λ (x : Entry). x.id) xs i m in
    (e, n, is_str-eq i v here ∙ ap str same)

IsVerified-by :
    (es : List Entry) (d : String) (r : Entry)
    → last? (reviews_for es d) ≡ some r
    → is_str "accepted" (get "verdict" r.payload) ≡ true
    → IsVerified es d
IsVerified-by es d r last_one yes_accepted =
    let m = last?-In (reviews_for es d) r last_one in
    let (k, among) = &&_split _ _ (keep-holds (is_review_of_outcome (outcomes_for es d)) es r m) in
    let (o, n, names) =
      among-In (keep (is_outcome_of (actions_for es d)) es) (get "outcome_id" r.payload) among in
    let (is_outcome, from_action) =
      &&_split _ _ (keep-holds (is_outcome_of (actions_for es d)) es o n) in
    let (a, q, acts) =
      among-In (keep (is_action_of d) es) (get "action_id" o.payload) from_action in
    record {
      review = r;
      stored = keep-In _ es r m;
      reviews = (eq_iff _ _).0 k;
      accepted = is_str-eq "accepted" _ yes_accepted;
      result = o;
      recorded = keep-In _ es o n;
      of_outcome = ((eq_iff _ _).0 is_outcome, names);
      deed = a;
      done = keep-In _ es a q;
      of_action = (acts, keep-holds (is_action_of d) es a q);
    }

verdict_of :
    (es : List Entry) (d : String) (o : Option Entry)
    → last? (reviews_for es d) ≡ o
    → elim o [
      | none ↦ state_outcome_recorded
      | some review ↦
          if is_str "accepted" (get "verdict" review.payload)
          then state_verified
          else state_verification_rejected
    ]
      ≡ state_verified
    → IsVerified es d
verdict_of es d none last_one h = cc
verdict_of es d (some r) last_one h =
    elim (Bool-cases (is_str "accepted" (get "verdict" r.payload))) [
      | inl yes_accepted ↦ IsVerified-by es d r last_one yes_accepted
      | inr turned_down ↦ cc (rw turned_down at h)
    ]

-- A decision that counts as verified has an accepted review of an outcome of an action of that
-- decision, and the action was performed or simulated.
pub decision_state-IsVerified :
    (es : List Entry) (d : String) → decision_state es d ≡ state_verified → IsVerified es d
unfolding decision_state
decision_state-IsVerified es d h = elim (Bool-cases (is_nil (outcomes_for es d))) [
  | inl no_outcome ↦ elim (Bool-cases (is_nil (actions_for es d))) [
    | inl no_action ↦ cc (rw (no_outcome, no_action) at h)
    | inr some_action ↦ cc (rw (no_outcome, some_action) at h)
  ]
  | inr some_outcome ↦ verdict_of es d (last? (reviews_for es d)) refl (rw some_outcome at h)
]
