-- ===== src/Advice/Board.antt =====
-- What people and the engine say of each part of the machine: `hypothesis_board` of backend/app/engine/triage.py.
pub mod Excluded
use veyra_demo.Engine.Outcomes.{find_key}
use veyra_demo.Ledger.Entry.{Entry}
use veyra_demo.Prelude.{
  Bool, List, Option, String, [], any, elem, false, if◌then◌else◌, is_nil, keep, last?, length, map,
  none, not, or_else, some, true, ℕ, ◌&&◌, ◌==◌, ◌||◌, ◌∷◌,
}
use veyra_demo.Python.Result.{Result, err, ok, select, traverse, value_error, ◌>>=◌}
use veyra_demo.Python.Text.{distinct, is_empty, sorted, split_on, ◌&◌}
use veyra_demo.Python.Value.{Dict, Value, all_texts?, arr, get, is_str, null, obj, truthy, value_eq}

-- What the engine found in one part of the machine; `kind`, `rule`, and `key` with its signal and its scope.
pub record Observation : Type 0 where
  pub kind : String
  pub rule : String
  pub signal : Option String
  pub scope : Option String
  pub text : String

pub record Assessment : Type 0 where
  pub status : String
  pub observations : List Observation

-- `FLAGGED`
abbrev pub is_flagged : Observation → Bool
is_flagged o = o.kind == "anomaly" || o.kind == "delay"

-- `… or '*'`
abbrev pub or_star : Option String → String
or_star none = "*"
or_star (some s) = if is_empty s then "*" else s

-- `observation_key(o)`
abbrev pub observation_key : Observation → String
observation_key o = o.rule & ("|" & (or_star o.signal & ("|" & or_star o.scope)))

-- `rule, signal, scope = key.split("|")`
abbrev pub three_parts : List String → Result (String × String × String)
three_parts (a ∷ b ∷ c ∷ []) = ok (a, b, c)
three_parts _ = err value_error

unfoldable pub key_parts : String → Result (String × String × String)
unfolding split_on
key_parts key = three_parts (split_on 124 key)

abbrev pub is_covered_by : String × String × String → String × String × String → Bool
is_covered_by (rule, signal, scope) (r, sg, sc) =
    r == rule && (sg == "*" || sg == signal) && (sc == "*" || sc == scope)

-- the loop of `_covered`
unfoldable pub covered_from : String × String × String → List String → Result Bool
unfolding key_parts
covered_from k [] = ok false
covered_from k (x ∷ xs) = do
  given ← key_parts x
  if is_covered_by k given then ok true else covered_from k xs

-- `_covered(key, excluded)`
unfoldable pub covered : String → List String → Result Bool
unfolding covered_from
covered key excluded = do k ← key_parts key; covered_from k excluded

-- the texts of a list in a payload, whose validation lets no other value in
abbrev texts_in : Value → List String
texts_in (arr vs) = or_else [] (all_texts? vs)
texts_in _ = []

abbrev pub is_verdict_on : String → Entry → Bool
is_verdict_on domain e = e.kind == "hypothesis_status" && is_str domain (get "domain" e.payload)

-- `latest.get(domain)`
abbrev pub latest_verdict : List Entry → String → Option Entry
latest_verdict ledger domain = last? (keep (is_verdict_on domain) ledger)

-- `excluded`: what a verdict names, or the rules that an older one rests on
abbrev pub exclusions : Dict → List String
exclusions p = elim (get "excluded_observations" p) [
  | null ↦ elim (texts_in (get "finding_rules" p)) [
    | [] ↦ "*" ∷ []
    | r ∷ rs ↦ map (λ x. x & "|*|*") (r ∷ rs)
  ]
  | v ↦ texts_in v
]

abbrev pub excludes_all : List String → Bool
excludes_all (x ∷ []) = x == "*"
excludes_all _ = false

-- `new_data`
abbrev pub has_new_data : Dict → Option Dict → Bool
has_new_data p none = false
has_new_data p (some now) =
    truthy (get "input_hashes" p) && not (value_eq (get "input_hashes" p) (obj now))

abbrev pub flagged_keys : Assessment → List String
flagged_keys a = sorted (distinct (map observation_key (keep is_flagged a.observations)))

-- `remaining`: the keys that a verdict does not cover
unfoldable pub remaining_keys : List String → List String → Result (List String)
unfolding covered
remaining_keys excluded keys_now =
    if excludes_all excluded
    then ok []
    else select (λ k. covered k excluded >>= λ b. ok (not b)) keys_now

pub data Column : Type 0 where
  open_column supported_column ruled_out_column : Column

-- What `column`, `partly` and `note` become.
pub record Placed : Type 0 where
  pub column : Column
  pub partly : Option (List String × List String)
  pub note : Option String

abbrev pub new_data_note : String
new_data_note =
    "Ruled out on earlier data; new data has been added since, so it is open again until someone reviews it"

abbrev pub has_delay_in : Assessment → List String → Bool
has_delay_in a remaining =
    any (λ o. o.kind == "delay" && elem (observation_key o) remaining)
      (keep is_flagged a.observations)

-- the branch of a part that a person ruled out
unfoldable pub place_ruled_out : Assessment → Dict → Option Dict → Result Placed
unfolding remaining_keys
place_ruled_out a p hashes = do
  remaining ← remaining_keys (exclusions p) (flagged_keys a)
  let fresh = has_new_data p hashes
  ok (
      if not (is_nil remaining) || fresh
      then record {
        column = if has_delay_in a remaining then supported_column else open_column;
        partly = some (exclusions p, remaining);
        note = if fresh then some new_data_note else none;
      }
      else record { column = ruled_out_column; partly = none; note = none })

abbrev placed : Column → Placed
placed c = record { column = c; partly = none; note = none }

abbrev pub verdict_is : String → Option Entry → Bool
verdict_is s none = false
verdict_is s (some e) = is_str s (get "status" e.payload)

abbrev engine_column : Assessment → Column
engine_column a = if a.status == "delay_observed" then supported_column else open_column

unfoldable pub place : Assessment → Option Entry → Option Dict → Result Placed
unfolding place_ruled_out
place a none hashes = ok (placed (engine_column a))
place a (some e) hashes =
    if is_str "ruled_out" (get "status" e.payload)
    then place_ruled_out a e.payload hashes
    else ok (
        placed (
          if is_str "supported" (get "status" e.payload)
          then supported_column
          else if is_str "reopened" (get "status" e.payload)
              || is_str "weakened" (get "status" e.payload)
          then open_column
          else engine_column a))

abbrev pub is_ruled_out : Column → Bool
is_ruled_out ruled_out_column = true
is_ruled_out _ = false

-- `hint`
abbrev engine_hint : Assessment → Option Entry → Column → Option String
engine_hint a human c =
    if (verdict_is "reopened" human || verdict_is "weakened" human) && a.status == "delay_observed"
    then some (
        (if verdict_is "reopened" human then "Reopened" else "Weakened")
        & " by a person; the engine still measures a delay here (a clue, not a verdict)")
    else if a.status == "no_delay_observed_in_measured_part" && not (is_ruled_out c)
    then some
        "Measured part showed no delay; a person may rule this out for the measured scope only"
    else none

-- One row: the verdict stands as its entry.
pub record BoardRow : Type 0 where
  pub domain : String
  pub owner : Option String
  pub engine_status : String
  pub placing : Placed
  pub human : Option Entry
  pub hint : Option String
  pub evidence_count : ℕ

unfoldable pub board_row :
    List Entry → List (String × String) → Option Dict → String × Assessment → Result BoardRow
unfolding place
board_row ledger owners hashes (domain, a) = do
  let human = latest_verdict ledger domain
  p ← place a human hashes
  ok (record {
    domain = domain;
    owner = find_key domain owners;
    engine_status = a.status;
    placing = p;
    human = human;
    hint = engine_hint a human p.column;
    evidence_count = length a.observations;
  })

-- `hypothesis_board(domains, ledger, owners, input_hashes)`
unfoldable pub hypothesis_board :
    List (String × Assessment)
    → List Entry
    → List (String × String)
    → Option Dict
    → Result (List BoardRow)
unfolding board_row
hypothesis_board parts ledger owners hashes = traverse (board_row ledger owners hashes) parts
