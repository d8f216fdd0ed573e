-- ===== src/Ledger/Validate/Walkthrough.antt =====
-- The branch of `validate` for `debug_walkthrough`.
use Prim.Native.Char.{code}
use veyra_demo.Ledger.Payload.{choice, choice_if, text, text_if}
use veyra_demo.Ledger.Platform.{Platform}
use veyra_demo.Ledger.Request.{Request, Validated}
use veyra_demo.Prelude.{
  Bool, List, String, [], false, if◌then◌else◌, leb, length, nat_eq, none, not, or_else, some, true,
  ℕ, ◌&&◌, ◌+◌, ◌∷◌,
}
use veyra_demo.Python.Result.{Result, err, ledger_error, ok, raise_if, ◌>>=◌, ◌>>◌}
use veyra_demo.Python.Text.{decimal, prefix, ◌&◌}
use veyra_demo.Python.Value.{
  Dict, Value, arr, dict, get, is_outside, items, null, number?, obj, of_items, str, text?,
}

unfoldable pub read_steps : Value → Result (List Value)
read_steps (arr vs) =
    if leb 1 (length (items vs)) && leb (length (items vs)) 30
    then ok (items vs)
    else err (ledger_error "'steps' must list 1 to 30 steps")
read_steps _ = err (ledger_error "'steps' must list 1 to 30 steps")

-- `minutes` and `cost`: absent, or a number from 0 to 10 million; a NaN passes both tests
unfoldable pub is_amount : Value → Bool
is_amount null = true
is_amount v = elim (number? v) [ none ↦ false | some x ↦ not (is_outside 10000000 x) ]

-- `re.match(r"^\d{4}-\d{2}-\d{2}", when)`, with `d` for a digit
abbrev date_shape : String
date_shape = "dddd-dd-dd"

unfoldable pub matches_shape : Platform → String → String → Bool
matches_shape p String.[] s = true
matches_shape p (String.◌∷◌ d ds) String.[] = false
matches_shape p (String.◌∷◌ d ds) (String.◌∷◌ c s) =
    (if nat_eq (code d) b'd' then p.is_decimal (code c) else nat_eq (code c) (code d))
    && matches_shape p ds s

-- `when[:10] if when else None`, once `when` is a date
unfoldable pub read_when : Platform → Value → Result Value
read_when p null = ok null
read_when p (str s) =
    if matches_shape p date_shape s
    then ok (str (prefix 10 s))
    else err (ledger_error "when must be a date (YYYY-MM-DD)")
read_when p _ = err (ledger_error "when must be a date (YYYY-MM-DD)")

unfoldable pub clean_step : Platform → String → Value → Result Value
unfolding is_amount read_when
clean_step p step_id (obj st) = do
  raise_if (not (is_amount (get "minutes" st)))
      (ledger_error "minutes must be a non-negative number")
  raise_if (not (is_amount (get "cost" st))) (ledger_error "cost must be a non-negative number")
  on ← read_when p (get "when" st)
  check ← text st "check" 300
  about ← text_if false st "part" 120
  kind ← choice_if false st "kind" ("check" ∷ "swap" ∷ "repair" ∷ [])
  result ← choice st "result" ("fault_found" ∷ "not_the_issue" ∷ "inconclusive" ∷ "partly" ∷ [])
  decided ← text_if false st "decided_by" 400
  why ← text_if false st "why" 400
  ok (
      obj (
        dict (
          ("id", str step_id)
          ∷ ("check", str check)
          ∷ ("part", text? about)
          ∷ ("kind", str (or_else "check" kind))
          ∷ ("result", str result)
          ∷ ("decided_by", text? decided)
          ∷ ("why", text? why)
          ∷ ("when", on)
          ∷ ("minutes", get "minutes" st)
          ∷ ("cost", get "cost" st)
          ∷ [])))
clean_step p step_id _ = err (ledger_error "a step must be an object")

-- The loop over the steps; step `i` counts from 0 and has the id s(i + 1).
unfoldable pub clean_steps : Platform → ℕ → List Value → Result (List Value)
unfolding clean_step
clean_steps p i [] = ok []
clean_steps p i (st ∷ sts) = do
  clean ← clean_step p ("s" & decimal (i + 1)) st
  rest ← clean_steps p (i + 1) sts
  ok (clean ∷ rest)

unfoldable pub debug_walkthrough : Platform → Request → Dict → Result Validated
unfolding read_steps clean_steps
debug_walkthrough p r payload = do
  steps ← read_steps (get "steps" payload)
  clean ← clean_steps p 0 steps
  system ← text_if false payload "system" 120
  symptom ← text_if false payload "symptom" 400
  architecture ← choice_if false payload "architecture" ("modular" ∷ "integrated" ∷ "unknown" ∷ [])
  source ←
      choice_if false payload "source" ("interview" ∷ "chat" ∷ "service_record" ∷ "example" ∷ [])
  currency ← text_if false payload "currency" 8
  cause ← text_if false payload "final_cause" 300
  ambiguous ← text_if false payload "why_ambiguous" 600
  ok (
    dict (
        ("system", text? system)
        ∷ ("symptom", text? symptom)
        ∷ ("architecture", str (or_else "unknown" architecture))
        ∷ ("source", str (or_else "interview" source))
        ∷ ("currency", text? currency)
        ∷ ("steps", arr (of_items clean))
        ∷ ("final_cause", text? cause)
        ∷ ("why_ambiguous", text? ambiguous)
        ∷ ("verification_grade", str "engineer_reported_not_independently_reviewed")
        ∷ []),
    [],
  )
