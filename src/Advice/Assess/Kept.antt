-- ===== src/Advice/Assess/Kept.antt =====
-- What `assess` keeps open.
use veyra_demo.Advice.Assess.{
  Assessed, PartNote, Run, assess, candidates, effect_note, effect_only, has_evidence, is_effect,
  link_is_less_likely, open_parts, out, part_names, status_of, supported_note, unmeasured,
  with_evidence,
}
use veyra_demo.Advice.Decide.{considered}
use veyra_demo.Prelude.{
  &&_split, Bool-cases, In, In-append, In-keep, List, String, [], ap₂, both_true, false, inl, inr,
  keep, keep-In, keep-holds, leb, length, map, not, not-false, not-true, refl, subst, true, ◌&&◌,
  ◌==◌, ◌↔◌, ◌∷◌, ◌≡◌, ◌⊎◌,
}

pub parts_of_notes :
    (note : String → PartNote)
    → ((d : String) → (note d).part ≡ d)
    → (ds : List String) → map (λ n. n.part) (map note ds) ≡ ds
parts_of_notes note own [] = refl
parts_of_notes note own (d ∷ ds) = ap₂ (λ x xs. x ∷ xs) (own d) (parts_of_notes note own ds)

-- A part of the run that nobody ruled out.
abbrev pub IsLeftOpen : Run → String → Type 0
IsLeftOpen run d = In d (part_names run) × (out run d ≡ false)

open_parts-IsLeftOpen : (run : Run) (d : String) → In d (open_parts run) → IsLeftOpen run d
open_parts-IsLeftOpen run d m = (
  keep-In (λ x. not (out run x)) (part_names run) d m,
  not-true (out run d) (keep-holds (λ x. not (out run x)) (part_names run) d m),
)

is_effect-seen : (run : Run) (d : String) → is_effect run d ≡ true → has_evidence run d ≡ true
is_effect-seen run d h =
    (&&_split (has_evidence run d) (effect_only run d)
      (&&_split (has_evidence run d && effect_only run d) _ h).0).0

-- A part of the machine stands among the supported parts or among the mere effects exactly when it belongs to the run,
-- nobody ruled it out, and its status is a delay or an anomaly: no part with evidence is left out.
pub assess_iff :
    (run : Run) (d : String)
    → (In d (map (λ n. n.part) (assess run).supported)
        ⊎ In d (map (λ n. n.part) (assess run).effects))
      ↔ (IsLeftOpen run d × (has_evidence run d ≡ true))
unfolding assess
assess_iff run d =
    rw
      (
        parts_of_notes (supported_note run) (λ x. refl) (with_evidence run),
        parts_of_notes (effect_note run) (λ x. refl) (keep (is_effect run) (open_parts run)),
      )
      (there, back)
  where
    there :
        In d (with_evidence run) ⊎ In d (keep (is_effect run) (open_parts run))
        → IsLeftOpen run d × (has_evidence run d ≡ true)
    there (inl m) = (
      open_parts-IsLeftOpen run d (keep-In _ (open_parts run) d m),
      (&&_split _ _ (keep-holds _ (open_parts run) d m)).0,
    )
    there (inr m) = (
      open_parts-IsLeftOpen run d (keep-In _ (open_parts run) d m),
      is_effect-seen run d (keep-holds (is_effect run) (open_parts run) d m),
    )

    back :
        IsLeftOpen run d × (has_evidence run d ≡ true)
        → In d (with_evidence run) ⊎ In d (keep (is_effect run) (open_parts run))
    back ((m, not_out), seen) =
        let open_part = In-keep (λ x. not (out run x)) (part_names run) d m (rw not_out refl) in
        elim (Bool-cases (is_effect run d)) [
          | inl mere ↦ inr (In-keep (is_effect run) (open_parts run) d open_part mere)
          | inr more ↦ inl (
              In-keep (λ x. has_evidence run x && not (is_effect run x)) (open_parts run) d
                open_part (both_true seen (not-false (is_effect run d) more)))
        ]

candidates-IsLeftOpen : (run : Run) (d : String) → In d (candidates run) → IsLeftOpen run d
unfolding candidates
candidates-IsLeftOpen run d m = elim (Bool-cases (leb 2 (length (with_evidence run)))) [
  | inl two ↦ shown (rw two at m)
  | inr fewer ↦ elim (In-append (with_evidence run) (unmeasured run) (rw fewer at m)) [
    | inl n ↦ shown n
    | inr n ↦ unseen n
  ]
]
  where
    shown : In d (with_evidence run) → IsLeftOpen run d
    shown n = open_parts-IsLeftOpen run d (keep-In _ (open_parts run) d n)

    unseen : In d (unmeasured run) → IsLeftOpen run d
    unseen n =
        elim (Bool-cases (
          link_is_less_likely run
            (keep (λ x. status_of run x == "not_observed") (open_parts run)))) [
              | inl less ↦ open_parts-IsLeftOpen run d (
                  keep-In _ (open_parts run) d
                    (keep-In (λ x. not (x == "network")) _ d (rw less at n)))
              | inr as_likely ↦
                  open_parts-IsLeftOpen run d (keep-In _ (open_parts run) d (rw as_likely at n))
            ]

told_apart :
    (run : Run) (d : String)
    → In d (map (λ n. n.part) (assess run).cannot_tell_apart)
    → In d (candidates run)
unfolding assess
told_apart run d n = elim (Bool-cases (leb 2 (length (candidates run)))) [
  | inl two ↦ subst (In d) (parts_of_notes _ (λ x. refl) (candidates run)) (rw two at n)
  | inr one ↦ elim (rw one at n) [ ]
]

considered-of :
    (a : Assessed) (d : String)
    → In d (considered a)
    → In d (map (λ n. n.part) a.cannot_tell_apart) ⊎ In d (map (λ n. n.part) a.supported)
considered-of a d m = go a.cannot_tell_apart m
  where
    go :
        (ns : List PartNote)
        → In d
            (elim ns [ [] ↦ map (λ n. n.part) a.supported | k ∷ ks ↦ map (λ n. n.part) (k ∷ ks) ])
        → In d (map (λ n. n.part) ns) ⊎ In d (map (λ n. n.part) a.supported)
    go [] k = inr k
    go (n ∷ ns) k = inl k

-- what stands to be decided on was not ruled out
pub considered-IsLeftOpen :
    (run : Run) (d : String) → In d (considered (assess run)) → IsLeftOpen run d
considered-IsLeftOpen run d m = elim (considered-of (assess run) d m) [
  | inr shown ↦ ((assess_iff run d).0 (inl shown)).0
  | inl told ↦ candidates-IsLeftOpen run d (told_apart run d told)
]
