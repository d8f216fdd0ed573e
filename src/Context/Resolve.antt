-- ===== src/Context/Resolve.antt =====
-- `resolve`: what was known at one time about the machine at another.
-- `_STATUS_RANK`
use veyra_demo.Context.{
  Assertion, Status, carries_value, effective, engineer_confirmed, is_confirmed, is_reported,
  learned, reported, retracted, same_value, schema_keys, unknown_value,
}
use veyra_demo.Prelude.{
  Bool, List, Option, String, [], elem, if◌then◌else◌, is_nil, keep, leb, ltb, map, nat_eq, none,
  not, some, true, ℕ, ◌&&◌, ◌==◌, ◌||◌, ◌∷◌,
}
use veyra_demo.Python.Text.{sorted, text_le}

abbrev rank : Status → ℕ
rank engineer_confirmed = 3
rank reported = 2
rank unknown_value = 1
rank retracted = 1

-- the assertions that count: `usable`
unfoldable pub is_usable : String → ℕ → Option ℕ → Assertion → Bool
is_usable machine_id effective_at known_at a =
    a.machine_id == machine_id
    && leb (effective a) effective_at
    && elim known_at [ none ↦ true | some k ↦ leb (learned a) k ]

-- `max(_epoch(a.effective_from) for a in candidates)`
unfoldable pub latest_effective : List Assertion → ℕ
latest_effective [] = 0
latest_effective (a ∷ more) =
    let rest = latest_effective more in if ltb rest (effective a) then effective a else rest

-- `(_STATUS_RANK[a.status], _epoch(a.recorded_at), a.id)` is smaller for `a` than for `b`
abbrev pub precedes : Assertion → Assertion → Bool
precedes a b =
    if nat_eq (rank a.status) (rank b.status)
    then (if nat_eq (learned a) (learned b)
        then not (text_le b.id a.id)
        else ltb (learned a) (learned b))
    else ltb (rank a.status) (rank b.status)

-- `max(current, key=…)`: the first of the greatest
unfoldable pub greatest : Assertion → List Assertion → Assertion
greatest a [] = a
greatest a (b ∷ bs) = greatest (if precedes a b then b else a) bs

-- `(_epoch(a.effective_from), _epoch(a.recorded_at))` is smaller for `a` than for `b`
abbrev pub is_before : Assertion → Assertion → Bool
is_before a b =
    if nat_eq (effective a) (effective b)
    then ltb (learned a) (learned b)
    else ltb (effective a) (effective b)

-- `sorted(candidates, key=…, reverse=True)`, which keeps the order of equals
unfoldable pub insert_newest : Assertion → List Assertion → List Assertion
insert_newest a [] = a ∷ []
insert_newest a (b ∷ bs) =
    let rest = insert_newest a bs in if is_before a b then b ∷ rest else a ∷ b ∷ bs

unfoldable pub newest_first : List Assertion → List Assertion
unfolding insert_newest
newest_first [] = []
newest_first (a ∷ more) = insert_newest a (newest_first more)

-- The loop over the earlier assertions: the confirmation that a report of the same value carries on.
unfoldable pub confirmation_in : Option String → List Assertion → Option Assertion
confirmation_in value [] = none
confirmation_in value (e ∷ es) =
    let rest = confirmation_in value es in
    if not (same_value e.value value) || not (carries_value e.status)
    then none
    else if is_confirmed e.status
    then some e
    else rest

-- the values of the other assertions that are current, without repetition
unfoldable pub rival_values : Option String → List Assertion → List String
rival_values value [] = []
rival_values value (a ∷ more) =
    let rest = rival_values value more in
    elim a.value [
      | none ↦ rest
      | some v ↦
          if carries_value a.status && not (same_value (some v) value) && not (elem v rest)
          then v ∷ rest
          else rest
    ]

-- an entry of `attributes`, when the key has a candidate
pub record Resolved : Type 0 where
  pub chosen : Assertion
  pub value : Option String
  pub status : Status
  pub carried_from : Option Assertion
  pub conflicting_values : List String

pub data Attribute : Type 0 where
  no_record : Attribute
  resolved : Resolved → Attribute

abbrev pub shown_status : Status → Status
shown_status retracted = unknown_value
shown_status s = s

unfoldable pub settle : Assertion → List Assertion → List Assertion → Attribute
unfolding newest_first confirmation_in rival_values
settle chosen current candidates =
    let rivals = sorted (rival_values chosen.value current) in
    let found =
      if is_reported chosen.status
      then confirmation_in chosen.value (newest_first candidates)
      else none in
    let carried = if is_nil rivals then found else none in
    resolved (record {
      chosen = chosen;
      value = if carries_value chosen.status then chosen.value else none;
      status = elim carried [ none ↦ shown_status chosen.status | some _ ↦ engineer_confirmed ];
      carried_from = carried;
      conflicting_values = rivals;
    })

-- the candidates in force: those with the latest `effective_from`
abbrev pub in_force : List Assertion → List Assertion
in_force candidates = keep (λ a. nat_eq (effective a) (latest_effective candidates)) candidates

-- One round of the loop over `SCHEMA`.
unfoldable pub attribute_of : List Assertion → Attribute
unfolding latest_effective greatest settle
attribute_of candidates = elim (in_force candidates) [
  | [] ↦ no_record
  | a ∷ more ↦ settle (greatest a more) (a ∷ more) candidates
]

pub record Snapshot : Type 0 where
  pub machine_id : String
  pub effective_at : ℕ
  pub known_at : Option ℕ
  pub attributes : List (String × Attribute)
  pub hash : String

-- `resolve(assertions, machine_id, effective_at=…, known_at=…)`, with the digest of `snapshot_hash`
unfoldable pub resolve :
    (String → List (String × Attribute) → String)
    → List Assertion
    → String
    → ℕ
    → Option ℕ
    → Snapshot
unfolding is_usable attribute_of
resolve digest assertions machine_id effective_at known_at =
    let usable = keep (is_usable machine_id effective_at known_at) assertions in
    let attributes = map (λ k. (k, attribute_of (keep (λ a. a.key == k) usable))) schema_keys in
    record {
      machine_id = machine_id;
      effective_at = effective_at;
      known_at = known_at;
      attributes = attributes;
      hash = digest machine_id attributes;
    }
