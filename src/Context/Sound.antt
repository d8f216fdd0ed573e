-- ===== src/Context/Sound.antt =====
-- A confirmed value of a snapshot is one that an engineer confirmed.
use veyra_demo.Context.{
  Assertion, Status, carries_value, engineer_confirmed, is_confirmed, is_reported, reported,
  retracted, same_value, schema_keys, unknown_value,
}
use veyra_demo.Context.Compare.{attribute_in, confirmed}
use veyra_demo.Context.Resolve.{
  Attribute, Resolved, attribute_of, confirmation_in, greatest, in_force, insert_newest, is_before,
  is_usable, newest_first, no_record, precedes, resolve, resolved, rival_values, settle,
  shown_status,
}
use veyra_demo.Prelude.{
  &&_split, Bool, Bool-cases, In, In-cons, List, Option, String, [], ap, arith, eq_iff, false,
  first, if◌then◌else◌, inl, inr, is_nil, keep, keep-In, keep-holds, later, map, none, not, refl,
  some, subst, sym, true, ℕ, ◌&&◌, ◌==◌, ◌||◌, ◌∙◌, ◌∷◌, ◌≡◌, ◌⊎◌,
}
use veyra_demo.Python.Text.{sorted}

same_value-eq : (v w : Option String) → same_value v w ≡ true → v ≡ w
same_value-eq none none h = refl
same_value-eq none (some t) h = cc
same_value-eq (some s) none h = cc
same_value-eq (some s) (some t) h = ap some ((eq_iff s t).0 h)

greatest-In : (a : Assertion) (more : List Assertion) → In (greatest a more) (a ∷ more)
unfolding greatest
greatest-In a [] = first refl
greatest-In a (b ∷ more) = elim (Bool-cases (precedes a b)) [
  | inl up ↦ rw up (later (greatest-In b more))
  | inr down ↦
      rw down
        (elim (In-cons more (greatest-In a more)) [ inl e ↦ first e | inr m ↦ later (later m) ])
]

insert_newest-In :
    (a e : Assertion) (bs : List Assertion) → In e (insert_newest a bs) → (e ≡ a) ⊎ In e bs
unfolding insert_newest
insert_newest-In a e [] m = In-cons [] m
insert_newest-In a e (b ∷ bs) m = elim (Bool-cases (is_before a b)) [
  | inl after ↦ elim (In-cons (insert_newest a bs) (rw after at m)) [
    | inl same ↦ inr (first same)
    | inr k ↦ elim (insert_newest-In a e bs k) [ inl same ↦ inl same | inr n ↦ inr (later n) ]
  ]
  | inr front ↦ In-cons (b ∷ bs) (rw front at m)
]

newest_first-In : (e : Assertion) (es : List Assertion) → In e (newest_first es) → In e es
unfolding newest_first
newest_first-In e [] m = m
newest_first-In e (a ∷ es) m = elim (insert_newest-In a e (newest_first es) m) [
  | inl same ↦ first same
  | inr k ↦ later (newest_first-In e es k)
]

confirmation_in-found :
    (value : Option String) (es : List Assertion) (e : Assertion)
    → confirmation_in value es ≡ some e
    → In e es × (is_confirmed e.status ≡ true) × (e.value ≡ value)
unfolding confirmation_in
confirmation_in-found value [] e h = cc
confirmation_in-found value (a ∷ es) e h =
    elim (Bool-cases (not (same_value a.value value) || not (carries_value a.status))) [
      | inl ended ↦ cc (rw ended at h)
      | inr agrees ↦ elim (Bool-cases (is_confirmed a.status)) [
        | inl here ↦
            let same : a ≡ e = cc (rw (agrees, here) at h) in
            (
              first (sym same),
              subst (λ (x : Assertion). is_confirmed x.status ≡ true) same here,
              subst (λ (x : Assertion). x.value ≡ value) same
                  (same_value-eq a.value value (not_either _ _ agrees)),
            )
        | inr not_here ↦
            let (m, c, v) = confirmation_in-found value es e (rw (agrees, not_here) at h) in
            (later m, c, v)
      ]
    ]
  where
    not_either : (x y : Bool) → (not x || not y) ≡ false → x ≡ true
    not_either x y k = ground arith

-- an assertion among the candidates that an engineer confirmed, with the value
abbrev Backs : List Assertion → String → Type 0
Backs candidates v =
    (a : Assertion) × In a candidates × (is_confirmed a.status ≡ true) × (a.value ≡ some v)

shown_confirmed :
    (s : Status)
    → is_confirmed (shown_status s) ≡ true
    → (is_confirmed s ≡ true) × (carries_value s ≡ true)
shown_confirmed engineer_confirmed h = (refl, refl)
shown_confirmed reported h = cc
shown_confirmed unknown_value h = cc
shown_confirmed retracted h = cc

reported_carries : (s : Status) → is_reported s ≡ true → carries_value s ≡ true
reported_carries reported h = refl
reported_carries engineer_confirmed h = cc
reported_carries unknown_value h = cc
reported_carries retracted h = cc

settled-Backs :
    (chosen : Assertion) (candidates : List Assertion) (carried : Option Assertion) (v : String)
    → In chosen candidates
    → ((e : Assertion)
        → carried ≡ some e
        → (is_reported chosen.status ≡ true)
          × In e candidates
          × (is_confirmed e.status ≡ true)
          × (e.value ≡ chosen.value))
    → is_confirmed
        (elim carried [ none ↦ shown_status chosen.status | some _ ↦ engineer_confirmed ])
      ≡ true
    → (if carries_value chosen.status then chosen.value else none) ≡ some v
    → Backs candidates v
settled-Backs chosen candidates none v m from confirmed_now value =
    let (c, carries) = shown_confirmed chosen.status confirmed_now in
    (chosen, m, c, rw carries at value)
settled-Backs chosen candidates (some e) v m from confirmed_now value =
    let (told, k, c, same) = from e refl in
    (e, k, c, same ∙ (rw (reported_carries chosen.status told) at value))

carried_from-found :
    (chosen : Assertion) (candidates : List Assertion) (rivals : List String) (e : Assertion)
    → (if is_nil rivals
        then (if is_reported chosen.status
            then confirmation_in chosen.value (newest_first candidates)
            else none)
        else none)
      ≡ some e
    → (is_reported chosen.status ≡ true)
      × In e candidates
      × (is_confirmed e.status ≡ true)
      × (e.value ≡ chosen.value)
carried_from-found chosen candidates (r ∷ rivals) e h = cc
carried_from-found chosen candidates [] e h = elim (Bool-cases (is_reported chosen.status)) [
  | inl told ↦
      let (m, c, same) =
        confirmation_in-found chosen.value (newest_first candidates) e (rw told at h) in
      (told, newest_first-In e candidates m, c, same)
  | inr other ↦ cc (rw other at h)
]

resolved_injective : {r q : Resolved} → resolved r ≡ resolved q → r ≡ q
resolved_injective h = cc

settle-Backs :
    (chosen : Assertion) (current candidates : List Assertion) (r : Resolved) (v : String)
    → In chosen candidates
    → settle chosen current candidates ≡ resolved r
    → is_confirmed r.status ≡ true
    → r.value ≡ some v
    → Backs candidates v
unfolding settle
settle-Backs chosen current candidates r v m h confirmed_now value =
    let same = resolved_injective h in
    settled-Backs chosen candidates _ v m
      (carried_from-found chosen candidates (sorted (rival_values chosen.value current)))
      (subst (λ (x : Resolved). is_confirmed x.status ≡ true) (sym same) confirmed_now)
      (subst (λ (x : Resolved). x.value ≡ some v) (sym same) value)

attribute_of-Backs :
    (candidates : List Assertion) (r : Resolved) (v : String)
    → attribute_of candidates ≡ resolved r
    → is_confirmed r.status ≡ true
    → r.value ≡ some v
    → Backs candidates v
unfolding attribute_of
attribute_of-Backs candidates r v h confirmed_now value = go (in_force candidates) refl h
  where
    go :
        (current : List Assertion)
        → in_force candidates ≡ current
        → elim current [
          | [] ↦ no_record
          | a ∷ more ↦ settle (greatest a more) (a ∷ more) candidates
        ]
          ≡ resolved r
        → Backs candidates v
    go [] same k = cc
    go (a ∷ more) same k =
        settle-Backs (greatest a more) (a ∷ more) candidates r v
          (keep-In _ candidates (greatest a more)
            (subst (In (greatest a more)) (sym same) (greatest-In a more)))
          k confirmed_now value

attribute_in-map :
    (f : String → Attribute) (ks : List String) (k : String) (r : Resolved)
    → attribute_in k (map (λ j. (j, f j)) ks) ≡ resolved r
    → f k ≡ resolved r
attribute_in-map f [] k r h = cc
attribute_in-map f (j ∷ ks) k r h = elim (Bool-cases (j == k)) [
  | inl here ↦ subst (λ i. f i ≡ resolved r) ((eq_iff j k).0 here) (rw here at h)
  | inr other ↦ attribute_in-map f ks k r (rw other at h)
]

abbrev usable_of : String → ℕ → Option ℕ → List Assertion → List Assertion
usable_of machine_id effective_at known_at assertions =
    keep (is_usable machine_id effective_at known_at) assertions

-- Why a snapshot may show a value as confirmed.
pub record IsBacked (assertions : List Assertion) (machine_id : String) (effective_at : ℕ)
    (known_at : Option ℕ) (k v : String) : Type 0 where
  pub assertion : Assertion
  pub stored : In assertion assertions
  pub counts : is_usable machine_id effective_at known_at assertion ≡ true
  pub about : assertion.key ≡ k
  pub by_engineer : is_confirmed assertion.status ≡ true
  pub says : assertion.value ≡ some v

-- Reported values are never treated as confirmed: when a resolved context shows a value of a key as
-- confirmed, an engineer confirmed that value of that key, for this machine, with effect at the time
-- asked for, and known by the cutoff.
pub confirmed-IsBacked :
    (digest : String → List (String × Attribute) → String) (assertions : List Assertion)
    (machine_id : String) (effective_at : ℕ) (known_at : Option ℕ) (k v : String)
    → confirmed (resolve digest assertions machine_id effective_at known_at) k ≡ some v
    → IsBacked assertions machine_id effective_at known_at k v
unfolding confirmed resolve
confirmed-IsBacked digest assertions machine_id effective_at known_at k v h =
    go
      (attribute_in k (
        map
          (λ j. (
            j,
            attribute_of
                (keep (λ a. a.key == j) (usable_of machine_id effective_at known_at assertions)),
          ))
          schema_keys))
      refl h
  where
    backed :
        Backs (keep (λ a. a.key == k) (usable_of machine_id effective_at known_at assertions)) v
        → IsBacked assertions machine_id effective_at known_at k v
    backed (a, m, c, says) = record {
      assertion = a;
      stored =
          keep-In _ assertions a
            (keep-In _ (usable_of machine_id effective_at known_at assertions) a m);
      counts =
          keep-holds _ assertions a
            (keep-In _ (usable_of machine_id effective_at known_at assertions) a m);
      about =
          (eq_iff _ _).0 (keep-holds _ (usable_of machine_id effective_at known_at assertions) a m);
      by_engineer = c;
      says = says;
    }

    go :
        (found : Attribute)
        → attribute_in k (
            map
              (λ j. (
                j,
                attribute_of (
                    keep (λ a. a.key == j) (usable_of machine_id effective_at known_at assertions)),
              ))
              schema_keys)
          ≡ found
        → elim found [
          | no_record ↦ none
          | resolved r ↦
              if is_confirmed r.status && is_nil r.conflicting_values then r.value else none
        ]
          ≡ some v
        → IsBacked assertions machine_id effective_at known_at k v
    go no_record same g = cc
    go (resolved r) same g =
        elim (Bool-cases (is_confirmed r.status && is_nil r.conflicting_values)) [
          | inl shown ↦ backed (
              attribute_of-Backs
                (keep (λ a. a.key == k) (usable_of machine_id effective_at known_at assertions)) r v
                (attribute_in-map
                  (λ j. attribute_of (
                    keep (λ a. a.key == j) (usable_of machine_id effective_at known_at assertions)))
                  schema_keys k r same)
                (&&_split _ _ shown).0 (rw shown at g))
          | inr hidden ↦ cc (rw hidden at g)
        ]
