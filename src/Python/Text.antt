-- ===== src/Python/Text.antt =====
-- Python's `str`: `strip`, `len` and truth, over the characters of a native text.
pub mod Order
use Prim.Native.String.{compare, ◌++◌ as ◌++ₛ◌}
use text.Mathlib.Text.{is_le, starts_with}
use Prim.Native.Char.{Char, code}
use veyra_demo.Prelude.{
  Bool, List, String, [], arith, elem, false, if◌then◌else◌, leb, ltb, nat_eq, refl, suc, true,
  zero, ℕ, ◌%◌, ◌&&◌, ◌/◌, ◌||◌, ◌∷◌, ◌≡◌, ◌≤◌,
}

-- The characters for which `str.isspace` holds and which `str.strip` removes.
abbrev pub is_space : Char → Bool
is_space c =
    let n = code c in
    (leb 9 n && leb n 13)
    || (leb 28 n && leb n 32)
    || nat_eq n 133
    || nat_eq n 160
    || nat_eq n 5760
    || (leb 8192 n && leb n 8202)
    || nat_eq n 8232
    || nat_eq n 8233
    || nat_eq n 8239
    || nat_eq n 8287
    || nat_eq n 12288

infixr 64 ◌&◌
-- `s + t`
abbrev pub ◌&◌ : String → String → String
s & t = s ++ₛ t

-- `sep.join(texts)`
abbrev pub join : String → List String → String
join sep [] = ""
join sep (s ∷ []) = s
join sep (s ∷ t ∷ ss) = s & sep & join sep (t ∷ ss)

-- `s.replace("Z", "+00:00")`
unfoldable pub replace_z : String → String
replace_z String.[] = String.[]
replace_z (String.◌∷◌ c s) =
    let rest = replace_z s in if nat_eq (code c) 90 then "+00:00" & rest else String.◌∷◌ c rest

abbrev pub is_empty : String → Bool
is_empty String.[] = true
is_empty (String.◌∷◌ c s) = false

unfoldable pub lstrip : String → String
lstrip String.[] = String.[]
lstrip (String.◌∷◌ c s) = let rest = lstrip s in if is_space c then rest else String.◌∷◌ c s

unfoldable pub rstrip : String → String
rstrip String.[] = String.[]
rstrip (String.◌∷◌ c s) =
    let rest = rstrip s in if is_empty rest && is_space c then String.[] else String.◌∷◌ c rest

-- `s.strip()`
unfoldable pub strip : String → String
unfolding lstrip rstrip
strip s = rstrip (lstrip s)

-- `len(s)`
unfoldable pub char_count : String → ℕ
char_count String.[] = 0
char_count (String.◌∷◌ c s) = suc (char_count s)

lstrip_idem : (s : String) → lstrip (lstrip s) ≡ lstrip s
unfolding lstrip
lstrip_idem String.[] = refl
lstrip_idem (String.◌∷◌ c s) = ground (arith, lstrip_idem s)

rstrip_idem : (s : String) → rstrip (rstrip s) ≡ rstrip s
unfolding rstrip
rstrip_idem String.[] = refl
rstrip_idem (String.◌∷◌ c s) = ground (arith, rstrip_idem s)

lstrip-rstrip : (s : String) → lstrip (rstrip s) ≡ rstrip (lstrip s)
unfolding lstrip rstrip
lstrip-rstrip String.[] = refl
lstrip-rstrip (String.◌∷◌ c s) = ground (arith, lstrip-rstrip s)

pub strip_idem : (s : String) → strip (strip s) ≡ strip s
unfolding strip
strip_idem s = rw (lstrip-rstrip (lstrip s), lstrip_idem s, rstrip_idem (lstrip s))

-- `strip` never makes a text longer.
char_count-lstrip : (s : String) → char_count (lstrip s) ≤ char_count s
unfolding lstrip char_count
char_count-lstrip String.[] = omega arith
char_count-lstrip (String.◌∷◌ c s) = ground (arith, char_count-lstrip s)

char_count-rstrip : (s : String) → char_count (rstrip s) ≤ char_count s
unfolding rstrip char_count
char_count-rstrip String.[] = omega arith
char_count-rstrip (String.◌∷◌ c s) = ground (arith, char_count-rstrip s)

pub char_count-strip : (s : String) → char_count (strip s) ≤ char_count s
unfolding strip
char_count-strip s = omega (arith, char_count-rstrip (lstrip s), char_count-lstrip s)

-- `not s.strip()`
abbrev pub is_blank : String → Bool
is_blank s = is_empty (strip s)

-- the texts of one character that a loop over `s` takes
abbrev pub characters : String → List String
characters String.[] = []
characters (String.◌∷◌ c s) = String.◌∷◌ c String.[] ∷ characters s

-- `s[:n]`
abbrev pub prefix : ℕ → String → String
prefix zero s = String.[]
prefix (suc n) String.[] = String.[]
prefix (suc n) (String.◌∷◌ c s) = String.◌∷◌ c (prefix n s)

-- `t in s`
abbrev pub is_substring : String → String → Bool
is_substring t String.[] = is_empty t
is_substring t (String.◌∷◌ c s) = starts_with (String.◌∷◌ c s) t || is_substring t s

-- `s.count("|")`
abbrev pub bar_count : String → ℕ
bar_count String.[] = 0
bar_count (String.◌∷◌ c s) = if nat_eq (code c) 124 then suc (bar_count s) else bar_count s

-- `s.split("|")[0]`
abbrev pub before_bar : String → String
before_bar String.[] = String.[]
before_bar (String.◌∷◌ c s) =
    let rest = before_bar s in if nat_eq (code c) 124 then String.[] else String.◌∷◌ c rest

abbrev pub insert_text : String → List String → List String
insert_text s [] = s ∷ []
insert_text s (t ∷ ts) =
    let rest = insert_text s ts in if is_le (compare s t) then s ∷ t ∷ ts else t ∷ rest

-- `sorted(texts)`, by code points
abbrev pub sorted : List String → List String
sorted [] = []
sorted (s ∷ ss) = insert_text s (sorted ss)

abbrev digit : ℕ → String
digit n =
    if nat_eq n 0
    then "0"
    else if nat_eq n 1
    then "1"
    else if nat_eq n 2
    then "2"
    else if nat_eq n 3
    then "3"
    else if nat_eq n 4
    then "4"
    else if nat_eq n 5
    then "5"
    else if nat_eq n 6
    then "6"
    else if nat_eq n 7
    then "7"
    else if nat_eq n 8
    then "8"
    else "9"

-- `str(n)` of a number below 100
abbrev pub decimal : ℕ → String
decimal n = if ltb n 10 then digit n else digit (n / 10) & digit (n % 10)

-- `str(n)`: a number has no more digits than its size and one.
unfoldable pub decimal_from : ℕ → ℕ → String
decimal_from zero n = digit n
decimal_from (suc f) n =
    let rest = decimal_from f (n / 10) in if ltb n 10 then digit n else rest & digit (n % 10)

unfoldable pub number_text : ℕ → String
unfolding decimal_from
number_text n = decimal_from n n

-- `s.replace("_", " ")`
unfoldable pub spaced : String → String
spaced String.[] = String.[]
spaced (String.◌∷◌ c s) = (if nat_eq (code c) 95 then " " else String.◌∷◌ c String.[]) & spaced s

-- `s.split(c)`, for the character with a given number
unfoldable pub split_on : ℕ → String → List String
split_on n String.[] = String.[] ∷ []
split_on n (String.◌∷◌ c s) =
    let rest = split_on n s in
    if nat_eq (code c) n
    then String.[] ∷ rest
    else elim rest [ [] ↦ [] | part ∷ parts ↦ String.◌∷◌ c part ∷ parts ]

-- the texts of a list, each once
abbrev pub distinct : List String → List String
distinct [] = []
distinct (s ∷ ss) = let rest = distinct ss in if elem s rest then rest else s ∷ rest

-- `s <= t`, by code points
abbrev pub text_le : String → String → Bool
text_le s t = is_le (compare s t)
