-- ===== src/Context/Accept.antt =====
-- What an accepted assertion is like.
use text.Mathlib.Text.{starts_with}
use veyra_demo.Context.{
  Assertion, AttributeDef, Status, carries_value, definitions, effective, is_confirmed, learned,
}
use veyra_demo.Context.Validate.{
  allowed_fields, field_names, find_definition, guard_offset, has_zone, is_no_value, parse_time,
  read_definition, read_evidence, read_note, read_status, read_text_value, read_value, required,
  validate_assertion,
}
use veyra_demo.Ledger.Platform.{Moment, Platform, instant}
use veyra_demo.Prelude.{
  Bool-cases, In, List, Option, String, [], ap, arith, elem, elem-In, false, first, if◌then◌else◌,
  inl, inr, is_nil, keep, later, ltb, ltb-ge, neither, none, not, refl, some, some_injective, subst,
  sym, true, ◌&&◌, ◌==◌, ◌||◌, ◌∙◌, ◌∷◌, ◌≡◌, ◌≤◌, ◌⊎◌,
}
use veyra_demo.Python.Result.{
  >>=-eq-ok, Ensures, Ensures-bind, Ensures-ok, context_error, err, ok, ok_injective, or_raise,
  raise_if, raise_if-ok, returns,
}
use veyra_demo.Python.Text.{
  char_count, char_count-strip, is_blank, is_empty, sorted, strip, strip_idem, ◌&◌,
}
use veyra_demo.Python.Value.{Dict, Float, Value, arr, bool, float, get, int, lookup, null, obj, str}

-- The assertion is about an attribute of the schema, and holds a value exactly when its status says
-- that it does: a short text, one of the allowed ones where the attribute lists them.
pub record IsProper (a : Assertion) : Type 0 where
  pub attribute : AttributeDef
  pub in_schema : In attribute definitions
  pub about : attribute.key ≡ a.key
  pub valued :
      (v : String)
      → a.value ≡ some v
      → (carries_value a.status ≡ true)
        × (char_count v ≤ 500)
        × (is_blank v ≡ false)
        × ((is_nil attribute.allowed ≡ true) ⊎ In v attribute.allowed)
  pub holds : carries_value a.status ≡ true → (v : String) × (a.value ≡ some v)
  pub in_order : effective a ≤ learned a
  pub named :
      (is_blank a.source ≡ false) × (is_blank a.actor ≡ false) × (is_blank a.machine_id ≡ false)

find_definition-In :
    (ds : List AttributeDef) (k : String) (d : AttributeDef)
    → find_definition ds k ≡ some d
    → In d ds
find_definition-In [] k d h = cc
find_definition-In (e ∷ ds) k d h = elim (Bool-cases (e.key == k)) [
  | inl here ↦ let same : e ≡ d = cc (rw here at h) in first (sym same)
  | inr other ↦ later (find_definition-In ds k d (rw other at h))
]

read_definition-In : (v : Value) (d : AttributeDef) → read_definition v ≡ ok d → In d definitions
unfolding read_definition
read_definition-In (str k) d h = found (find_definition definitions k) refl h
  where
    found :
        (o : Option AttributeDef)
        → find_definition definitions k ≡ o
        → or_raise o (context_error ("'" & k & "' is not a context attribute")) ≡ ok d
        → In d definitions
    found none e g = cc
    found (some x) e g = find_definition-In definitions k d (e ∙ ap some (cc g))
read_definition-In null d h = cc
read_definition-In (bool b) d h = cc
read_definition-In (int n) d h = cc
read_definition-In (float x) d h = cc
read_definition-In (arr vs) d h = cc
read_definition-In (obj e) d h = cc

abbrev Good : AttributeDef → String → Type 0
Good d v =
    (char_count v ≤ 500) × (is_blank v ≡ false) × ((is_nil d.allowed ≡ true) ⊎ In v d.allowed)

blank_strip : (s : String) → is_blank s ≡ false → is_blank (strip s) ≡ false
blank_strip s h = ap is_empty (strip_idem s) ∙ h

allowed-In :
    (d : AttributeDef) (v : String)
    → (not (is_nil d.allowed) && not (elem v d.allowed)) ≡ false
    → (is_nil d.allowed ≡ true) ⊎ In v d.allowed
allowed-In d v h = elim (Bool-cases (is_nil d.allowed)) [
  | inl free ↦ inl free
  | inr listed ↦ elim (Bool-cases (elem v d.allowed)) [
    | inl m ↦ inr (elem-In v d.allowed m)
    | inr out ↦ cc (rw (listed, out) at h)
  ]
]

read_text_value-Good :
    (read_float : String → Option Float) (d : AttributeDef) (v : Value) (s : String)
    → read_text_value read_float d v ≡ ok s
    → Good d s
unfolding read_text_value
read_text_value-Good read_float d (str t) s h =
    let (_, sized, h1) = >>=-eq-ok (raise_if (is_blank t || ltb 500 (char_count t)) _) _ h in
    let (_, listed, h2) =
      >>=-eq-ok (raise_if (not (is_nil d.allowed) && not (elem (strip t) d.allowed)) _) _ h1 in
    let (_, _, h3) = >>=-eq-ok (guard_offset read_float d.key (strip t)) _ h2 in
    let (filled, short) = neither _ _ (raise_if-ok _ _ sized) in
    subst (Good d) (ok_injective h3) (
      omega (arith, ltb-ge 500 (char_count t) short, char_count-strip t),
      blank_strip t filled,
      allowed-In d (strip t) (raise_if-ok _ _ listed),
    )
read_text_value-Good read_float d _ s h = cc

abbrev ValueGood : AttributeDef → Status → Option String → Type 0
ValueGood d status o =
    ((v : String) → o ≡ some v → (carries_value status ≡ true) × Good d v)
    × (carries_value status ≡ true → (v : String) × (o ≡ some v))

read_value-Good :
    (read_float : String → Option Float) (d : AttributeDef) (status : Status) (v : Value)
    (o : Option String)
    → read_value read_float d status v ≡ ok o
    → ValueGood d status o
unfolding read_value
read_value-Good read_float d status v o h = elim (Bool-cases (carries_value status)) [
  | inl carries ↦
      let (s, got, h') = >>=-eq-ok (read_text_value read_float d v) _ (rw carries at h) in
      subst (ValueGood d status) (ok_injective h') (
        (λ w same. (
          carries,
          subst (Good d) (some_injective same) (read_text_value-Good read_float d v s got),
        )),
        λ _. (s, refl),
      )
  | inr bare ↦ elim (Bool-cases (is_no_value v)) [
    | inl nothing_there ↦
        subst (ValueGood d status) (ok_injective (rw (bare, nothing_there) at h))
          ((λ w same. cc), λ carries. cc (bare, carries))
    | inr wrong ↦ cc (rw (bare, wrong) at h)
  ]
]

required-named :
    (raw : Dict) (label s : String) → required raw label ≡ ok s → is_blank (strip s) ≡ false
unfolding required
required-named raw label s h = go (get label raw) h
  where
    go :
        (v : Value)
        → elim v [
          | str t ↦
              if is_blank t || ltb 2000 (char_count t)
              then err (context_error (label & " is required"))
              else ok t
          | _ ↦ err (context_error (label & " is required"))
        ]
          ≡ ok s
        → is_blank (strip s) ≡ false
    go (str t) g = elim (Bool-cases (is_blank t || ltb 2000 (char_count t))) [
      | inl bad ↦ cc (rw bad at g)
      | inr fine ↦
          subst (λ x. is_blank (strip x) ≡ false) (ok_injective (rw fine at g))
            (blank_strip t (neither _ _ fine).0)
    ]
    go null g = cc
    go (bool b) g = cc
    go (int n) g = cc
    go (float x) g = cc
    go (arr vs) g = cc
    go (obj d) g = cc

validate_assertion-Ensures :
    (p : Platform) (read_float : String → Option Float) (raw : Dict) (assertion_id : String)
    (recorded_at : Moment)
    → Ensures IsProper (validate_assertion p read_float raw assertion_id recorded_at)
unfolding validate_assertion
validate_assertion-Ensures p read_float raw assertion_id recorded_at =
    Ensures-bind (raise_if (not (has_zone recorded_at)) _) _ λ _ _.
      Ensures-bind
        (raise_if
          (not (is_nil (sorted (keep (λ k. not (elem k allowed_fields)) (field_names raw))))) _)
        _
        λ _ _. Ensures-bind (read_definition (get "key" raw)) _ λ d known.
          Ensures-bind (read_status (lookup "status" raw)) _ λ status _.
            Ensures-bind (read_value read_float d status (get "value" raw)) _ λ v got.
              Ensures-bind (required raw "machine_id") _ λ machine_id on.
                Ensures-bind (required raw "source") _ λ source told.
                  Ensures-bind (required raw "actor") _ λ actor by.
                    Ensures-bind (parse_time p (get "effective_from" raw) "effective_from") _
                      λ effective_from _.
                        Ensures-bind
                          (raise_if (ltb (instant recorded_at) (instant effective_from)) _) _
                          λ _ order.
                            Ensures-bind (read_evidence (get "evidence" raw)) _ λ evidence _.
                              Ensures-bind
                                (raise_if
                                  (is_confirmed status
                                    && is_nil evidence
                                    && starts_with source "import profile")
                                  _)
                                _
                                λ _ _. Ensures-bind (read_note (lookup "note" raw)) _ λ remark _.
                                  let (good, held) =
                                    read_value-Good read_float d status (get "value" raw) v got in
                                  returns _ (record {
                                    attribute = d;
                                    in_schema = read_definition-In (get "key" raw) d known;
                                    about = refl;
                                    valued = λ w same.
                                        let (carries, (short, filled, listed)) = good w same in
                                        (carries, short, filled, listed);
                                    holds = held;
                                    in_order = ltb-ge _ _ (raise_if-ok _ _ order);
                                    named = (
                                      required-named raw "source" source told,
                                      required-named raw "actor" actor by,
                                      required-named raw "machine_id" machine_id on,
                                    );
                                  })

-- An accepted assertion is about an attribute of the schema. It holds a value exactly when it is
-- reported or confirmed; the value then says something in at most 500 characters, and is one of the
-- attribute's allowed values if it lists any. It does not take effect after it is recorded, and its
-- source, its author and the machine are named.
pub validate_assertion-IsProper :
    (p : Platform) (read_float : String → Option Float) (raw : Dict) (assertion_id : String)
    (recorded_at : Moment) (a : Assertion)
    → validate_assertion p read_float raw assertion_id recorded_at ≡ ok a
    → IsProper a
validate_assertion-IsProper p read_float raw assertion_id recorded_at a h =
    Ensures-ok (validate_assertion-Ensures p read_float raw assertion_id recorded_at) h
