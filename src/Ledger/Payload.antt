-- ===== src/Ledger/Payload.antt =====
-- The readers of payload fields: `_text`, `_choice`, `_time`, `_ids` of
-- backend/app/ledger/model.py.
use veyra_demo.Ledger.Platform.{Moment, Platform, aware, naive}
use veyra_demo.Prelude.{
  Bool, List, Option, String, [], elem, false, if◌then◌else◌, is_nil, keep, length, ltb, none, not,
  some, take, true, ℕ,
}
use veyra_demo.Python.Result.{Result, err, ledger_error, ok, or_raise, ◌>>=◌}
use veyra_demo.Python.Text.{char_count, is_blank, join, replace_z, strip, ◌&◌}
use veyra_demo.Python.Value.{Dict, Value, all_texts?, arr, get, items, null, str, truthy}

-- no value, or a text of white space only
abbrev pub is_absent : Value → Bool
is_absent null = true
is_absent (str s) = is_blank s
is_absent _ = false

unfoldable pub read_text : String → ℕ → Value → Result String
read_text key limit (str s) =
    if ltb limit (char_count s)
    then err (ledger_error ("'" & key & "' must be text up to the limit"))
    else ok (strip s)
read_text key limit _ = err (ledger_error ("'" & key & "' must be text up to the limit"))

-- `_text(payload, key, limit=limit)`
unfoldable pub text : Dict → String → ℕ → Result String
unfolding read_text
text payload key limit =
    if is_absent (get key payload)
    then err (ledger_error ("'" & key & "' is required"))
    else read_text key limit (get key payload)

-- `_text(payload, key, required=required, limit=limit)`
unfoldable pub text_if : Bool → Dict → String → ℕ → Result (Option String)
unfolding read_text
text_if required payload key limit =
    if is_absent (get key payload)
    then (if required then err (ledger_error ("'" & key & "' is required")) else ok none)
    else do s ← read_text key limit (get key payload); ok (some s)

unfoldable pub read_choice : String → List String → Value → Result String
read_choice key options (str s) =
    if elem s options
    then ok s
    else err (ledger_error ("'" & key & "' must be one of: " & join ", " options))
read_choice key options _ =
    err (ledger_error ("'" & key & "' must be one of: " & join ", " options))

-- `_choice(payload, key, options)`
unfoldable pub choice : Dict → String → List String → Result String
unfolding read_choice
choice payload key options = read_choice key options (get key payload)

-- `_choice(payload, key, options, required=required)`
unfoldable pub choice_if : Bool → Dict → String → List String → Result (Option String)
unfolding read_choice
choice_if required payload key options = elim (get key payload) [
  | null ↦
      if required
      then err (ledger_error ("'" & key & "' must be one of: " & join ", " options))
      else ok none
  | value ↦ do s ← read_choice key options value; ok (some s)
]

-- `str(value)`
abbrev pub str_of : Platform → Value → String
str_of p (str s) = s
str_of p v = p.show v

unfoldable pub read_moment : Platform → String → ℕ → Option Moment → Result String
read_moment p key now none = err (ledger_error ("'" & key & "' is not an ISO 8601 timestamp"))
read_moment p key now (some (naive t)) =
    err (ledger_error ("'" & key & "' needs a timezone offset"))
read_moment p key now (some (aware t z)) =
    if ltb now t
    then err (ledger_error ("'" & key & "' cannot be in the future"))
    else ok (p.isoformat (aware t z))

-- `_time(payload, key, now)`
unfoldable pub time : Platform → Dict → String → ℕ → Result String
unfolding read_moment
time p payload key now = elim (get key payload) [
  | null ↦ err (ledger_error ("'" & key & "' (ISO 8601 with timezone) is required"))
  | value ↦ read_moment p key now (p.parse_iso (replace_z (str_of p value)))
]

unfoldable pub read_ids : String → Value → Result (List String)
read_ids key v =
    if truthy v
    then elim v [
      | arr vs ↦
          if ltb 50 (length (items vs))
          then err (ledger_error ("'" & key & "' must be a list of identifiers"))
          else or_raise (all_texts? vs)
              (ledger_error ("'" & key & "' must be a list of identifiers"))
      | _ ↦ err (ledger_error ("'" & key & "' must be a list of identifiers"))
    ]
    else ok []

-- `_ids(payload, key, allowed, label)`
unfoldable pub id_list : Dict → String → List String → String → Result (List String)
unfolding read_ids
id_list payload key allowed label = do
  values ← read_ids key (get key payload)
  let unknown = keep (λ v. not (elem v allowed)) values
  if is_nil unknown
      then ok values
      else err (ledger_error (label & " not in this case: " & join ", " (take 5 unknown)))
