-- ===== src/Tests/Toy.antt =====
-- A platform that is a program: dates in unary, identities for case folding, and the id of an entry
-- as its digest.
use Prim.Native.Char.{code}
use veyra_demo.Ledger.Platform.{IsHex, Moment, Platform, ReadsBack, aware, naive}
use veyra_demo.Prelude.{
  Option, String, ap, ap₂, arith, if◌then◌else◌, leb, nat_eq, refl, some, suc, zero, ℕ, ◌&&◌, ◌+◌,
  ◌∙◌, ◌≡◌,
}

-- `n` ones, then `s`
abbrev ones : ℕ → String → String
ones zero s = s
ones (suc n) s = String.◌∷◌ "1" (ones n s)

-- `n` ones, then a plus sign and `z` ones if there is an offset
unfoldable pub toy_isoformat : Moment → String
toy_isoformat (naive t) = ones t ""
toy_isoformat (aware t z) = ones t (String.◌∷◌ "+" (ones z ""))

abbrev size_of : String → ℕ
size_of String.[] = 0
size_of (String.◌∷◌ c s) = suc (size_of s)

unfoldable pub parse_from : ℕ → String → Option Moment
parse_from t String.[] = some (naive t)
parse_from t (String.◌∷◌ c s) =
    let rest = parse_from (suc t) s in
    if nat_eq (code c) 43 then some (aware t (size_of s)) else rest

size_of-ones : (z : ℕ) → size_of (ones z "") ≡ z
size_of-ones zero = refl
size_of-ones (suc z) = ap suc (size_of-ones z)

parse_from-naive : (t n : ℕ) → parse_from t (ones n "") ≡ some (naive (t + n))
unfolding parse_from
parse_from-naive t zero = ap (λ x. some (naive x)) (omega arith)
parse_from-naive t (suc n) =
    let later_digits : parse_from (suc t) (ones n "") ≡ some (naive (suc t + n)) =
      parse_from-naive (suc t) n in
    later_digits ∙ ap (λ x. some (naive x)) (omega arith)

parse_from-aware :
    (t n z : ℕ) → parse_from t (ones n (String.◌∷◌ "+" (ones z ""))) ≡ some (aware (t + n) z)
unfolding parse_from
parse_from-aware t zero z =
    let same : t ≡ t + 0 = omega arith in ap₂ (λ x y. some (aware x y)) same (size_of-ones z)
parse_from-aware t (suc n) z =
    let later_digits : parse_from (suc t) (ones n (String.◌∷◌ "+" (ones z "")))
        ≡ some (aware (suc t + n) z) =
      parse_from-aware (suc t) n z in
    later_digits ∙ ap (λ x. some (aware x z)) (omega arith)

parse_toy : (m : Moment) → parse_from 0 (toy_isoformat m) ≡ some m
unfolding toy_isoformat
parse_toy (naive t) = parse_from-naive 0 t ∙ ap (λ x. some (naive x)) (omega arith)
parse_toy (aware t z) = parse_from-aware 0 t z ∙ ap (λ x. some (aware x z)) (omega arith)

abbrev pub toy : Platform
toy = record {
  parse_iso = parse_from 0;
  isoformat = toy_isoformat;
  show = λ _. "?";
  casefold = λ s. s;
  lower = λ s. s;
  is_decimal = λ n. leb 48 n && leb n 57;
  digest = λ b. String.◌∷◌ "#" b.id;
}

pub toy-ReadsBack : ReadsBack toy
toy-ReadsBack = record { parse_iso-isoformat = parse_toy }

first_code : String → ℕ
first_code String.[] = 0
first_code (String.◌∷◌ c s) = code c

pub toy-IsHex : IsHex toy
unfolding first_code
toy-IsHex = record {
  digest-ne-genesis = λ b h. let same : 35 ≡ 71 = ap first_code h in absurd (omega (arith, same));
}
