-- ===== src/Ledger/Rules/Readers.antt =====
-- What the readers of payload fields give back: bounds and normal forms.
use veyra_demo.Ledger.Payload.{
  choice, id_list, is_absent, read_choice, read_ids, read_moment, read_text, str_of, text, time,
}
use veyra_demo.Ledger.Platform.{Moment, Platform, ReadsBack, aware, naive}
use veyra_demo.Prelude.{
  All, All-intro, Bool-cases, In, List, Option, String, ap, arith, elem, elem-In, false, inl, inr,
  is_nil, is_nil-keep, keep, ltb, ltb-ge, none, not, some, subst, ℕ, ◌∙◌, ◌≡◌, ◌≤◌,
}
use veyra_demo.Python.Result.{>>=-eq-ok, err, ledger_error, ok}
use veyra_demo.Python.Text.{
  char_count, char_count-strip, is_blank, is_empty, replace_z, strip, strip_idem, ◌&◌,
}
use veyra_demo.Python.Value.{Dict, Value, get, null, str}

read_text-bounded :
    (v : Value) (key s : String) (limit : ℕ)
    → read_text key limit v ≡ ok s
    → (char_count s ≤ limit) × (strip s ≡ s)
unfolding read_text
read_text-bounded (str t) key s limit h = elim (Bool-cases (ltb limit (char_count t))) [
  | inl long ↦ absurd (cc (rw long at h))
  | inr short ↦
      let same : strip t ≡ s = cc (rw short at h) in
      subst (λ x. (char_count x ≤ limit) × (strip x ≡ x)) same
        (omega (arith, char_count-strip t, ltb-ge limit (char_count t) short), strip_idem t)
]
read_text-bounded _ key s limit h = cc

text-nonblank :
    (v : Value) (key s : String) (limit : ℕ)
    → is_absent v ≡ false
    → read_text key limit v ≡ ok s
    → is_blank s ≡ false
unfolding read_text
text-nonblank (str t) key s limit present h = elim (Bool-cases (ltb limit (char_count t))) [
  | inl long ↦ absurd (cc (rw long at h))
  | inr short ↦
      let same : strip t ≡ s = cc (rw short at h) in
      subst (λ x. is_blank x ≡ false) same (ap is_empty (strip_idem t) ∙ present)
]
text-nonblank _ key s limit present h = cc

-- A text that `_text` returns has at most the characters of its limit, has no white space at its
-- ends, and is not empty.
pub text-bounded :
    (payload : Dict) (key s : String) (limit : ℕ)
    → text payload key limit ≡ ok s
    → (char_count s ≤ limit) × (strip s ≡ s) × (is_blank s ≡ false)
unfolding text
text-bounded payload key s limit h = elim (Bool-cases (is_absent (get key payload))) [
  | inl absent ↦ absurd (cc (rw absent at h))
  | inr present ↦
      let (short, stripped) = read_text-bounded (get key payload) key s limit (rw present at h) in
      (short, stripped, text-nonblank (get key payload) key s limit present (rw present at h))
]

-- What `_choice` returns is one of the options, and is the value of the field.
read_choice-In :
    (v : Value) (key s : String) (options : List String)
    → read_choice key options v ≡ ok s
    → (v ≡ str s) × In s options
unfolding read_choice
read_choice-In (str t) key s options h = elim (Bool-cases (elem t options)) [
  | inl m ↦
      let same : t ≡ s = cc (rw m at h) in
      (ap str same, subst (λ x. In x options) same (elem-In t options m))
  | inr n ↦ absurd (cc (rw n at h))
]
read_choice-In _ key s options h = cc

pub choice-In :
    (payload : Dict) (key s : String) (options : List String)
    → choice payload key options ≡ ok s
    → (get key payload ≡ str s) × In s options
unfolding choice
choice-In payload key s options h = read_choice-In (get key payload) key s options h

read_moment-Past :
    (p : Platform) (key s : String) (now : ℕ) (m : Option Moment)
    → ReadsBack p
    → read_moment p key now m ≡ ok s
    → (t : ℕ) × (z : ℕ) × (p.parse_iso s ≡ some (aware t z)) × (t ≤ now)
unfolding read_moment
read_moment-Past p key s now none back h = cc
read_moment-Past p key s now (some (naive t)) back h = cc
read_moment-Past p key s now (some (aware t z)) back h = elim (Bool-cases (ltb now t)) [
  | inl late ↦ absurd (cc (rw late at h))
  | inr past ↦
      let same : p.isoformat (aware t z) ≡ s = cc (rw past at h) in
      (
        t,
        z,
        subst (λ x. p.parse_iso x ≡ some (aware t z)) same (back.parse_iso-isoformat (aware t z)),
        ltb-ge now t past,
      )
]

-- A time that `_time` returns has an offset, and is not after the clock.
pub time-Past :
    (p : Platform) (payload : Dict) (key s : String) (now : ℕ)
    → ReadsBack p
    → time p payload key now ≡ ok s
    → (t : ℕ) × (z : ℕ) × (p.parse_iso s ≡ some (aware t z)) × (t ≤ now)
unfolding time
time-Past p payload key s now back h = go (get key payload) h
  where
    go :
        (v : Value)
        → elim v [
          | null ↦ err (ledger_error ("'" & key & "' (ISO 8601 with timezone) is required"))
          | value ↦ read_moment p key now (p.parse_iso (replace_z (str_of p value)))
        ]
          ≡ ok s
        → (t : ℕ) × (z : ℕ) × (p.parse_iso s ≡ some (aware t z)) × (t ≤ now)
    go null k = cc
    go v k = read_moment-Past p key s now _ back k

-- Every id that `_ids` returns is one of those that the case has.
pub id_list-known :
    (payload : Dict) (key label : String) (allowed found : List String)
    → id_list payload key allowed label ≡ ok found
    → All (λ i. In i allowed) found
unfolding id_list
id_list-known payload key label allowed found h =
    let (values, _, h') = >>=-eq-ok (read_ids key (get key payload)) _ h in
    let unknown = keep (λ v. not (elem v allowed)) values in
    elim (Bool-cases (is_nil unknown)) [
      | inl none_left ↦
          let same : values ≡ found = cc (rw none_left at h') in
          subst (All (λ i. In i allowed)) same (
            All-intro _ values
              λ x m. elem-In x allowed (is_nil-keep (λ v. elem v allowed) values none_left x m))
      | inr some_left ↦ absurd (cc (rw some_left at h'))
    ]
