-- ===== src/Ledger/Platform.antt =====
-- What the ledger takes from outside the repository: the text format of dates, Unicode case
-- folding, and SHA-256 over canonical JSON.
use veyra_demo.Ledger.Entry.{Body, genesis}
use veyra_demo.Prelude.{Bool, Option, String, some, ℕ, ◌≡◌, ◌≢◌}
use veyra_demo.Python.Value.{Value}

-- A `datetime`. An instant counts microseconds of UTC from the day before year 1, so that no offset
-- makes it negative; `aware t z` carries the offset z - 1440 minutes, and `naive` has none.
pub data Moment : Type 0 where
  naive : ℕ → Moment
  aware : ℕ → ℕ → Moment

abbrev pub instant : Moment → ℕ
instant (naive t) = t
instant (aware t z) = t

pub record Platform : Type 0 where
  -- `datetime.fromisoformat`; `none` is its `ValueError`
  pub parse_iso : String → Option Moment
  -- `datetime.isoformat`
  pub isoformat : Moment → String
  -- `str(v)` of a value that is no text
  pub show : Value → String
  -- `str.casefold`
  pub casefold : String → String
  -- `str.lower`
  pub lower : String → String
  -- what `\d` matches in a regular expression, by code point
  pub is_decimal : ℕ → Bool
  -- `sha256(json.dumps(body, sort_keys=True, …))`, in hexadecimal
  pub digest : Body → String

-- `fromisoformat` reads back what `isoformat` prints.
pub record ReadsBack (p : Platform) : Type 0 where
  pub parse_iso-isoformat : (m : Moment) → p.parse_iso (p.isoformat m) ≡ some m

-- A digest is 64 hexadecimal digits, so it is not the word that starts a chain.
pub record IsHex (p : Platform) : Type 0 where
  pub digest-ne-genesis : (b : Body) → p.digest b ≢ genesis
