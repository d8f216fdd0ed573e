-- ===== src/Context/Compare.antt =====
-- What is read from a snapshot: `confirmed`, `gaps`, `compare` and `changes_between`.
use veyra_demo.Context.{
  Status, comparability_rules, is_confirmed, is_reported, same_value, schema_keys, unknown_value,
}
use veyra_demo.Context.Resolve.{Attribute, Snapshot, no_record, resolved}
use veyra_demo.Ledger.Platform.{Platform}
use veyra_demo.Prelude.{
  Bool, List, Option, String, [], false, if◌then◌else◌, is_nil, keep, map, none, not, some, true,
  ◌&&◌, ◌==◌, ◌∷◌,
}
use veyra_demo.Python.Result.{Result, context_error, ok, or_raise, ◌>>=◌}
use veyra_demo.Python.Text.{strip, ◌&◌}
use veyra_demo.Python.Value.{keys}

abbrev pub attribute_in : String → List (String × Attribute) → Attribute
attribute_in k [] = no_record
attribute_in k ((j, a) ∷ m) = if j == k then a else attribute_in k m

-- `confirmed(snapshot, key)`
unfoldable pub confirmed : Snapshot → String → Option String
confirmed s k = elim (attribute_in k s.attributes) [
  | no_record ↦ none
  | resolved r ↦ if is_confirmed r.status && is_nil r.conflicting_values then r.value else none
]

-- `gaps(snapshot, keys)`
pub record Gaps : Type 0 where
  pub not_recorded : List String
  pub unknown : List String
  pub reported_only : List String
  pub conflicting : List String

abbrev is_unknown : Status → Bool
is_unknown unknown_value = true
is_unknown _ = false

abbrev has_conflict : Attribute → Bool
has_conflict no_record = false
has_conflict (resolved r) = not (is_nil r.conflicting_values)

abbrev lacks_record : Attribute → Bool
lacks_record no_record = true
lacks_record (resolved r) = false

abbrev has_status : (Status → Bool) → Attribute → Bool
has_status test no_record = false
has_status test (resolved r) = test r.status && is_nil r.conflicting_values

unfoldable pub gaps : Snapshot → List String → Gaps
gaps s keys = record {
  not_recorded = keep (λ k. lacks_record (attribute_in k s.attributes)) keys;
  unknown = keep (λ k. has_status is_unknown (attribute_in k s.attributes)) keys;
  reported_only = keep (λ k. has_status is_reported (attribute_in k s.attributes)) keys;
  conflicting = keep (λ k. has_conflict (attribute_in k s.attributes)) keys;
}

-- one side of a key that is not confirmed
pub data Side : Type 0 where
  first_side second_side : Side

abbrev pub unconfirmed : Option String → Option String → List Side
unconfirmed none none = first_side ∷ second_side ∷ []
unconfirmed none (some w) = first_side ∷ []
unconfirmed (some v) none = second_side ∷ []
unconfirmed (some v) (some w) = []

pub record Comparison : Type 0 where
  pub comparable : Bool
  pub required_confirmed : List String
  pub missing_confirmation : List (String × List Side)
  pub mismatched : List String

abbrev pub differ : Platform → Option String → Option String → Bool
differ p (some v) (some w) = not (p.casefold (strip v) == p.casefold (strip w))
differ p _ _ = false

-- `missing`, over the keys in order
unfoldable pub missing_in : Snapshot → Snapshot → List String → List (String × List Side)
unfolding confirmed
missing_in a b [] = []
missing_in a b (k ∷ ks) =
    let rest = missing_in a b ks in
    let sides = unconfirmed (confirmed a k) (confirmed b k) in
    if is_nil sides then rest else (k, sides) ∷ rest

unfoldable pub mismatched_in : Platform → Snapshot → Snapshot → List String → List String
unfolding confirmed
mismatched_in p a b ks = keep (λ k. differ p (confirmed a k) (confirmed b k)) ks

abbrev pub rule_keys : String → List (String × List String) → Option (List String)
rule_keys purpose [] = none
rule_keys purpose ((j, ks) ∷ rules) = if j == purpose then some ks else rule_keys purpose rules

-- `compare(a, b, purpose)`
unfoldable pub compare_snapshots : Platform → Snapshot → Snapshot → String → Result Comparison
unfolding missing_in mismatched_in
compare_snapshots p a b purpose = do
  ks ←
      or_raise (rule_keys purpose comparability_rules)
        (context_error ("Unknown comparability purpose '" & purpose & "'"))
  let missing = missing_in a b ks
  let mismatched = mismatched_in p a b ks
  ok (record {
    comparable = is_nil missing && is_nil mismatched;
    required_confirmed = ks;
    missing_confirmation = missing;
    mismatched = mismatched;
  })

abbrev value_of : Attribute → Option String
value_of no_record = none
value_of (resolved r) = r.value

-- `changes_between(a, b)`: the keys whose values differ, with the two attributes
unfoldable pub changes_between : Snapshot → Snapshot → List (String × Attribute × Attribute)
changes_between a b =
    map (λ k. (k, attribute_in k a.attributes, attribute_in k b.attributes))
      (keep
        (λ k. not (
          same_value (value_of (attribute_in k a.attributes))
            (value_of (attribute_in k b.attributes))))
        schema_keys)
