-- ===== src/Advice/Decide/Settled.antt =====
-- What a decision of `decide` rests on.
use veyra_demo.Advice.Assess.{Assessed, Run, assess, label, status_of}
use veyra_demo.Advice.Assess.Kept.{IsLeftOpen, considered-IsLeftOpen}
use veyra_demo.Advice.Decide.{
  NextReport, Proposed, acted_on, considered, decide, decision_on, dispatch_candidate,
  hold_for_evidence, is_counted, lead_by_two, pointed, ranked, supports_part, unless_disagree,
  zero_score,
}
use veyra_demo.Engine.Outcomes.{Outcome, outcome_of}
use veyra_demo.Ledger.Scores.{
  Score, ahead, change_scores, counted, evidence_statuses, exceeds, gain, initial_scores, lead_part,
  lose, part_scores, ranked_parts, remote_parts, scores_more, weigh_counted, weigh_results,
}
use veyra_demo.Ledger.Scores.Leading.{IsAhead, lead_part-IsAhead}
use veyra_demo.Ledger.SiteResults.{SiteResult}
use veyra_demo.Prelude.{
  Bool, Bool-cases, In, In-any, In-cons, In-elem, In-keep, In-map, List, Option, String, [], any,
  ap, arith, elem, false, first, if◌then◌else◌, inl, inr, later, length, lt-leb, ltb, ltb-ge, map,
  map-In, neither, none, refl, some, subst, sym, true, ◌+◌, ◌==◌, ◌↔◌, ◌∙◌, ◌∷◌, ◌≡◌, ◌≢◌, ◌≤◌,
}
use veyra_demo.Prelude.Distinct.{map-same}
use veyra_demo.Prelude.Sort.{In-sort_by}
use veyra_demo.Python.Text.{is_empty}
use veyra_demo.Python.Value.{get, is_str, text_of?}

initial-low :
    (status : String → String) (ds : List String) (r : String × Score)
    → In r (initial_scores status ds)
    → (r.1.gained ≤ 1) × (r.1.lost ≡ 0)
initial-low status ds r m =
    let (d, k, e) =
      map-In
        (λ x. (x, record { gained = if elem (status x) evidence_statuses then 1 else 0; lost = 0 }))
        ds r m in
    rw e (elim (Bool-cases (elem (status d) evidence_statuses)) [
      | inl seen ↦ rw seen (omega arith, refl)
      | inr not_seen ↦ rw not_seen (omega arith, refl)
    ])

weigh-uncounted :
    (rs : List (String × SiteResult)) (t : List (String × Score))
    → any is_counted rs ≡ false
    → weigh_results rs t ≡ t
unfolding weigh_results
weigh-uncounted [] t h = refl
weigh-uncounted (r ∷ rs) t h =
    let (this, others) = neither (is_counted r) (any is_counted rs) h in
    go (counted r) this (weigh-uncounted rs t others)
  where
    go :
        (o : Option Outcome)
        → elim o [ none ↦ false | some _ ↦ true ] ≡ false
        → weigh_results rs t ≡ t
        → weigh_results rs (weigh_counted o t) ≡ t
    go none k rest = rest
    go (some o) k rest = cc

close_scores : (a b : Score) → a.gained ≤ 1 → b.lost ≡ 0 → exceeds 2 a b ≡ false
close_scores a b g l = lt-leb (b.gained + a.lost + 2) (a.gained + b.lost) (omega arith)

low_lead :
    (t : List (String × Score))
    → ((r : String × Score) → In r t → (r.1.gained ≤ 1) × (r.1.lost ≡ 0))
    → lead_by_two t ≡ none
low_lead [] low = refl
low_lead (r ∷ []) low = rw (close_scores r.1 zero_score (low r (first refl)).0 refl) refl
low_lead (r ∷ q ∷ rest) low =
    rw (close_scores r.1 q.1 (low r (first refl)).0 (low q (later (first refl))).1) refl

-- Whatever the recording shows, without a performed site result with a known outcome the decision is to wait for evidence.
pub decide-waits :
    (run : Run) (a : Assessed) (asked : List Proposed) (results : List (String × SiteResult))
    → any is_counted results ≡ false
    → (decide run a asked results).status ≡ hold_for_evidence
unfolding decide acted_on part_scores
decide-waits run a asked results h =
    rw
      (
        weigh-uncounted results (initial_scores (status_of run) (considered a)) h,
        low_lead (ranked_parts (initial_scores (status_of run) (considered a)))
            (λ r m. initial-low (status_of run) (considered a) r (In-sort_by scores_more _ r m)),
      )
      refl

keys-change :
    (f : Score → Score) (ds : List String) (t : List (String × Score))
    → map (λ r. r.0) (change_scores f ds t) ≡ map (λ r. r.0) t
keys-change f [] t = refl
keys-change f (d ∷ ds) t =
    keys-change f ds (map (λ r. if r.0 == d then (r.0, f r.1) else r) t)
    ∙ map-same (λ r. r.0) (λ r. if r.0 == d then (r.0, f r.1) else r)
        (λ r. elim (Bool-cases (r.0 == d)) [ inl here ↦ rw here refl | inr off ↦ rw off refl ]) t

keys-weigh :
    (rs : List (String × SiteResult)) (t : List (String × Score))
    → map (λ r. r.0) (weigh_results rs t) ≡ map (λ r. r.0) t
unfolding weigh_results
keys-weigh [] t = refl
keys-weigh (r ∷ rs) t = keys-weigh rs (weigh_counted (counted r) t) ∙ one (counted r)
  where
    one : (o : Option Outcome) → map (λ r. r.0) (weigh_counted o t) ≡ map (λ r. r.0) t
    one none = refl
    one (some o) =
        keys-change lose o.weakens (change_scores gain o.supports t) ∙ keys-change gain o.supports t

initial-keys :
    (status : String → String) (ds : List String) → map (λ r. r.0) (initial_scores status ds) ≡ ds
initial-keys status [] = refl
initial-keys status (d ∷ ds) = ap (λ t. d ∷ t) (initial-keys status ds)

scored_parts :
    (run : Run) (a : Assessed) (results : List (String × SiteResult))
    → map (λ r. r.0) (part_scores (status_of run) (considered a) results) ≡ considered a
unfolding part_scores
scored_parts run a results =
    keys-weigh results (initial_scores (status_of run) (considered a))
    ∙ initial-keys (status_of run) (considered a)

-- A performed result with a known outcome makes the part likelier.
pub record Supported (results : List (String × SiteResult)) (d : String) : Type 0 where
  pub check_id : String
  pub site_result : SiteResult
  pub reported : In (check_id, site_result) results
  pub performed : is_str "performed" (get "status" site_result.payload) ≡ true
  pub outcome : Outcome
  pub named : outcome_of check_id (text_of? (get "outcome" site_result.payload)) ≡ some outcome
  pub supports : In d outcome.supports

counted-performed :
    (i : String) (r : SiteResult) (o : Outcome)
    → is_str "performed" (get "status" r.payload) ≡ true
    → outcome_of i (text_of? (get "outcome" r.payload)) ≡ some o
    → counted (i, r) ≡ some o
counted-performed i r o h g = rw h g

Supported-part :
    (results : List (String × SiteResult)) (d : String) (s : Supported results d)
    → supports_part d (s.check_id, s.site_result) ≡ true
Supported-part results d s =
    ap (λ x. elim x [ none ↦ false | some o ↦ elem d o.supports ])
      (counted-performed s.check_id s.site_result s.outcome s.performed s.named)
    ∙ In-elem d s.outcome.supports s.supports

Supported-any :
    (results : List (String × SiteResult)) (d : String)
    → Supported results d
    → any (supports_part d) results ≡ true
Supported-any results d s =
    In-any (supports_part d) results (s.check_id, s.site_result) s.reported
      (Supported-part results d s)

-- a list with one item at most
at_most_one : (xs : List String) (d e : String) → length xs ≤ 1 → In d xs → In e xs → d ≡ e
at_most_one [] d e h m n = elim m [ ]
at_most_one (x ∷ []) d e h m n = elim (In-cons [] m) [
  | inr gone ↦ elim gone [ ]
  | inl d_x ↦ elim (In-cons [] n) [ inr gone ↦ elim gone [ ] | inl e_x ↦ d_x ∙ sym e_x ]
]
at_most_one (x ∷ y ∷ xs) d e h m n = absurd (omega (arith, h))

-- What a decision to act rests on.
pub record IsGrounded (run : Run) (results : List (String × SiteResult)) (r : NextReport)
    : Type 0 where
  pub part : String
  pub not_ruled_out : IsLeftOpen run part
  pub two_ahead : IsAhead 2 (part_scores (status_of run) (considered (assess run)) results) part
  pub undisputed :
      (d e : String)
      → In d (considered (assess run))
      → In e (considered (assess run))
      → Supported results d
      → Supported results e
      → d ≡ e
  pub by_site : any is_counted results ≡ true
  pub named : r.leading ≡ some (label run part)
  pub sends : (r.status ≡ dispatch_candidate) ↔ (elem part remote_parts ≡ false)

lead_by_two-lead :
    (t : List (String × Score)) (d : String)
    → lead_by_two (ranked_parts t) ≡ some d
    → lead_part t ≡ some d
unfolding lead_part
lead_by_two-lead t d h = go (ranked_parts t) h
  where
    go : (rs : List (String × Score)) → lead_by_two rs ≡ some d → ahead 2 rs ≡ some d
    go [] k = cc
    go (r ∷ []) k = elim (Bool-cases (exceeds 2 r.1 zero_score)) [
      | inl far ↦ rw far at k
      | inr near ↦ cc (rw near at k)
    ]
    go (r ∷ q ∷ rest) k = k

acts_on :
    (run : Run) (a : Assessed) (asked : List Proposed) (results : List (String × SiteResult))
    (o : Option String)
    → acted_on run a results ≡ o
    → ((decide run a asked results).status ≡ decision_on o)
      × ((decide run a asked results).leading
          ≡ elim o [ none ↦ none | some d ↦ some (label run d) ])
unfolding decide
acts_on run a asked results o e =
    (ap decision_on e, ap (λ x. elim x [ none ↦ none | some d ↦ some (label run d) ]) e)

sends_visit :
    (d : String) → (decision_on (some d) ≡ dispatch_candidate) ↔ (elem d remote_parts ≡ false)
sends_visit d = elim (Bool-cases (elem d remote_parts)) [
  | inl remote ↦ rw remote ((λ e. cc), (λ e. cc))
  | inr physical ↦ rw physical ((λ e. refl), (λ e. refl))
]

acted_on-lead :
    (run : Run) (a : Assessed) (results : List (String × SiteResult)) (d : String)
    → acted_on run a results ≡ some d
    → (length (pointed (considered a) results) ≤ 1) × (lead_by_two (ranked run a results) ≡ some d)
unfolding acted_on
acted_on-lead run a results d h =
    go (ltb 1 (length (pointed (considered a) results))) refl (lead_by_two (ranked run a results)) h
  where
    go :
        (b : Bool)
        → ltb 1 (length (pointed (considered a) results)) ≡ b
        → (o : Option String) → unless_disagree b o ≡ some d
        → (length (pointed (considered a) results) ≤ 1) × (o ≡ some d)
    go b e none k = cc
    go true e (some x) k = cc
    go false e (some x) k = elim (Bool-cases (is_empty x)) [
      | inl blank ↦ cc (rw blank at k)
      | inr named ↦ (ltb-ge 1 (length (pointed (considered a) results)) e, rw named at k)
    ]

-- When `decide` does not wait for evidence, one part stands behind it: nobody ruled it out, and it scores at least two
-- more than every other part considered. The site results that count support at most one of the parts considered, not
-- always that one, and at least one result counts. The decision is to prepare a visit exactly when the part cannot be
-- changed remotely.
pub decide-IsGrounded :
    (run : Run) (asked : List Proposed) (results : List (String × SiteResult))
    → (decide run (assess run) asked results).status ≢ hold_for_evidence
    → IsGrounded run results (decide run (assess run) asked results)
decide-IsGrounded run asked results h = go (acted_on run (assess run) results) refl
  where
    go :
        (o : Option String)
        → acted_on run (assess run) results ≡ o
        → IsGrounded run results (decide run (assess run) asked results)
    go none e = absurd (h (acts_on run (assess run) asked results none e).0)
    go (some d) e =
        let (undisputed, leads) = acted_on-lead run (assess run) results d e in
        let scores = part_scores (status_of run) (considered (assess run)) results in
        let two_ahead = lead_part-IsAhead scores d (lead_by_two-lead scores d leads) in
        let (status, leading) = acts_on run (assess run) asked results (some d) e in
        record {
          part = d;
          not_ruled_out = considered-IsLeftOpen run d (
              subst (In d) (scored_parts run (assess run) results)
                (In-map (λ r. r.0) scores two_ahead.scored));
          two_ahead = two_ahead;
          undisputed = λ d e m n sd se.
              at_most_one (pointed (considered (assess run)) results) d e undisputed
                (In-keep (λ x. any (supports_part x) results) (considered (assess run)) d m
                  (Supported-any results d sd))
                (In-keep (λ x. any (supports_part x) results) (considered (assess run)) e n
                  (Supported-any results e se));
          by_site = elim (Bool-cases (any is_counted results)) [
            | inl some_counted ↦ some_counted
            | inr uncounted ↦ absurd (h (decide-waits run (assess run) asked results uncounted))
          ];
          named = leading;
          sends = rw status (sends_visit d);
        }
