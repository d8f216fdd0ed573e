-- ===== src/Context/Validate.antt =====
-- `parse_time` and `validate_assertion`: what may be appended to a machine's context.
use text.Mathlib.Text.{starts_with}
use veyra_demo.Context.{
  Assertion, AttributeDef, Status, carries_value, definitions, engineer_confirmed, is_confirmed,
  reported, retracted, unknown_value,
}
use veyra_demo.Ledger.Platform.{Moment, Platform, aware, instant, naive}
use veyra_demo.Prelude.{
  Bool, List, Option, String, [], any, elem, false, if◌then◌else◌, is_nil, keep, length, ltb, none,
  not, some, true, ◌&&◌, ◌==◌, ◌||◌, ◌∷◌,
}
use veyra_demo.Python.Result.{
  Error, Result, context_error, err, ok, or_raise, raise_if, type_error, ◌>>=◌, ◌>>◌,
}
use veyra_demo.Python.Text.{char_count, is_blank, is_empty, join, replace_z, sorted, strip, ◌&◌}
use veyra_demo.Python.Value.{
  Dict, Float, Value, all_texts?, arr, empty, entry, get, is_hashable, is_up_to, items, lookup,
  null, str, truthy,
}

unfoldable pub read_instant : String → Option Moment → Result Moment
read_instant label none = err (context_error (label & " is not a valid ISO 8601 timestamp"))
read_instant label (some (naive t)) = err (context_error (label & " needs a timezone offset"))
read_instant label (some (aware t z)) = ok (aware t z)

-- `parse_time(value, label)`
unfoldable pub parse_time : Platform → Value → String → Result Moment
unfolding read_instant
parse_time p (str s) label = read_instant label (p.parse_iso (replace_z s))
parse_time p _ label = err (context_error (label & " must be an ISO 8601 timestamp with timezone"))

abbrev pub allowed_fields : List String
allowed_fields =
    "machine_id" ∷ "key" ∷ "value" ∷ "status" ∷ "source" ∷ "actor" ∷ "effective_from" ∷ "evidence"
    ∷ "note" ∷ []

abbrev pub field_names : Dict → List String
field_names empty = []
field_names (entry k v d) = k ∷ field_names d

abbrev pub find_definition : List AttributeDef → String → Option AttributeDef
find_definition [] k = none
find_definition (d ∷ ds) k = if d.key == k then some d else find_definition ds k

-- `key not in SCHEMA`
unfoldable pub read_definition : Value → Result AttributeDef
read_definition (str k) =
    or_raise (find_definition definitions k)
      (context_error ("'" & k & "' is not a context attribute"))
read_definition v =
    if is_hashable v then err (context_error "not a context attribute") else err type_error

abbrev bad_status : Error
bad_status = context_error "status must be one of reported, engineer_confirmed, unknown, retracted"

unfoldable pub read_status : Option Value → Result Status
read_status none = ok reported
read_status (some (str s)) =
    if s == "reported"
    then ok reported
    else if s == "engineer_confirmed"
    then ok engineer_confirmed
    else if s == "unknown"
    then ok unknown_value
    else if s == "retracted"
    then ok retracted
    else err bad_status
read_status (some _) = err bad_status

-- `value in (None, "")`
abbrev pub is_no_value : Value → Bool
is_no_value null = true
is_no_value (str s) = is_empty s
is_no_value _ = false

-- The bound on clock offsets, in milliseconds; `read_float` is Python's `float` of a text.
unfoldable pub guard_offset : (String → Option Float) → String → String → Result (Unit {0})
guard_offset read_float k v =
    if k == "clock_offset_bound_ms"
    then (do
      bound ←
          or_raise (read_float v)
            (context_error "clock_offset_bound_ms must be a number of milliseconds")
      raise_if (not (is_up_to 600000 bound))
          (context_error "clock_offset_bound_ms must be between 0 and 600000"))
    else ok tt

unfoldable pub read_text_value : (String → Option Float) → AttributeDef → Value → Result String
unfolding guard_offset
read_text_value read_float d (str s) = do
  raise_if (is_blank s || ltb 500 (char_count s))
      (context_error (d.key & ": value must be 1–500 characters"))
  let v = strip s
  raise_if (not (is_nil d.allowed) && not (elem v d.allowed))
      (context_error (d.key & " must be one of the allowed values"))
  guard_offset read_float d.key v
  ok v
read_text_value read_float d _ = err (context_error (d.key & ": value must be 1–500 characters"))

unfoldable pub read_value :
    (String → Option Float) → AttributeDef → Status → Value → Result (Option String)
unfolding read_text_value
read_value read_float d status v =
    if carries_value status
    then (do s ← read_text_value read_float d v; ok (some s))
    else if is_no_value v
    then ok none
    else err (context_error "unknown and retracted assertions carry no value")

-- a text that is required: one round of the loop over `machine_id`, `source` and `actor`
unfoldable pub required : Dict → String → Result String
required raw label = elim (get label raw) [
  | str s ↦
      if is_blank s || ltb 2000 (char_count s)
      then err (context_error (label & " is required"))
      else ok s
  | _ ↦ err (context_error (label & " is required"))
]

abbrev bad_evidence : Error
bad_evidence = context_error "evidence must be a list of up to 20 identifiers"

unfoldable pub read_evidence : Value → Result (List String)
read_evidence v =
    if truthy v
    then elim v [
      | arr vs ↦ do
        raise_if (ltb 20 (length (items vs))) bad_evidence
        found ← or_raise (all_texts? vs) bad_evidence
        raise_if (any is_blank found) bad_evidence
        ok found
      | _ ↦ err bad_evidence
    ]
    else ok []

unfoldable pub read_note : Option Value → Result String
read_note none = ok ""
read_note (some (str s)) =
    if ltb 2000 (char_count s)
    then err (context_error "note must be up to 2000 characters")
    else ok s
read_note (some _) = err (context_error "note must be up to 2000 characters")

abbrev pub has_zone : Moment → Bool
has_zone (naive t) = false
has_zone (aware t z) = true

-- `validate_assertion(raw, assertion_id=…, recorded_at=…)`
unfoldable pub validate_assertion :
    Platform → (String → Option Float) → Dict → String → Moment → Result Assertion
unfolding parse_time read_definition read_status read_value required read_evidence read_note
validate_assertion p read_float raw assertion_id recorded_at = do
  raise_if (not (has_zone recorded_at)) (context_error "recorded_at must be timezone-aware")
  let extra = sorted (keep (λ k. not (elem k allowed_fields)) (field_names raw))
  raise_if (not (is_nil extra)) (context_error ("Unknown assertion fields: " & join ", " extra))
  d ← read_definition (get "key" raw)
  status ← read_status (lookup "status" raw)
  v ← read_value read_float d status (get "value" raw)
  machine_id ← required raw "machine_id"
  source ← required raw "source"
  actor ← required raw "actor"
  effective_from ← parse_time p (get "effective_from" raw) "effective_from"
  raise_if (ltb (instant recorded_at) (instant effective_from))
      (context_error "effective_from cannot be later than the time it is recorded")
  evidence ← read_evidence (get "evidence" raw)
  raise_if (is_confirmed status && is_nil evidence && starts_with source "import profile") (
      context_error
        "A value reported by an import profile cannot be marked engineer_confirmed without evidence")
  note ← read_note (lookup "note" raw)
  ok (record {
    id = assertion_id;
    machine_id = strip machine_id;
    key = d.key;
    value = v;
    status = status;
    source = strip source;
    actor = strip actor;
    effective_from = effective_from;
    recorded_at = recorded_at;
    evidence = evidence;
    note = note;
  })
