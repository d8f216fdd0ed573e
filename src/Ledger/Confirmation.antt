-- ===== src/Ledger/Confirmation.antt =====
-- `CONFIRMING_RECORD` and `require_confirming_record` of backend/app/engine/states.py: what a
-- closure must link before it may call a cause confirmed.
use veyra_demo.Ledger.Entry.{Entry}
use veyra_demo.Prelude.{
  Bool, List, Option, String, [], false, if◌then◌else◌, is_nil, keep, last?, none, not, some, true,
  ◌&&◌, ◌==◌, ◌||◌, ◌∷◌,
}
use veyra_demo.Python.Result.{Result, ok, raise_if, state_error, ◌>>=◌}
use veyra_demo.Python.Text.{is_empty, ◌&◌}
use veyra_demo.Python.Value.{Dict, Value, dot_get, get, is_str, item, member, null, truthy}

-- The kind of record that each method needs, and the test on its payload.
unfoldable pub confirming_kind : String → Option String
confirming_kind method =
    if method == "inspection"
    then some "check_execution"
    else if method == "reproduction"
    then some "reproduction_attempt"
    else if method == "fix_resolved_it"
    then some "outcome"
    else none

unfoldable pub confirming_test : String → Dict → Bool
confirming_test method payload =
    if method == "inspection"
    then is_str "performed" (get "status" payload)
    else if method == "reproduction"
    then is_str "reproduced" (get "result" payload)
      || is_str "partially_reproduced" (get "result" payload)
    else is_str "recovered" (get "result" payload)

-- `by_id.get(i)`, where `by_id` indexes the entries by id: the last with that id
unfoldable pub by_id : List Entry → String → Option Entry
by_id entries i = last? (keep (λ e. e.id == i) entries)

-- `next((r["payload"]["proposed"].get("domains") for r in entries if r["id"] == review_id), None)`
unfoldable pub review_domains : List Entry → Value → Result Value
review_domains [] review_id = ok null
review_domains (e ∷ es) review_id =
    if is_str e.id review_id
    then (do proposal ← item "proposed" e.payload; dot_get "domains" proposal)
    else review_domains es review_id

-- The domains that an executed check examined.
unfoldable pub examined_domains : List Entry → Dict → Result Value
unfolding review_domains
examined_domains entries payload = do
  own ←
      (if truthy (get "proposed" payload)
        then dot_get "domains" (get "proposed" payload)
        else ok null)
  if truthy own then ok own else review_domains entries (get "review_id" payload)

-- a check that examined other parts only
unfoldable pub examines_other : List Entry → Value → Entry → Result Bool
unfolding examined_domains
examines_other entries cause_domain e =
    if e.kind == "check_execution" && truthy cause_domain
    then (do
      examined ← examined_domains entries e.payload
      if truthy examined then (do here ← member cause_domain examined; ok (not here)) else ok false)
    else ok false

-- One round of the loop: does this record confirm the cause?
unfoldable pub confirms : String → Value → List Entry → Bool → Entry → Result Bool
unfolding examines_other
confirms method cause_domain entries synthetic e =
    if not (elim (confirming_kind method) [ none ↦ false | some k ↦ e.kind == k ])
      || not (confirming_test method e.payload)
    then ok false
    else if e.kind == "outcome" && truthy (get "simulated" e.payload) && not synthetic
    then ok false
    else (do other ← examines_other entries cause_domain e; ok (not other))

unfoldable pub some_confirms : String → Value → List Entry → Bool → List String → Result Bool
unfolding confirms
some_confirms method cause_domain entries synthetic [] = ok false
some_confirms method cause_domain entries synthetic (i ∷ is) =
    let rest = some_confirms method cause_domain entries synthetic is in
    elim (by_id entries i) [
      | none ↦ rest
      | some e ↦ do
        here ← confirms method cause_domain entries synthetic e
        if here then ok true else rest
    ]

abbrev pub is_some {ℓ} : {A : Type ℓ} → Option A → Bool
is_some none = false
is_some (some _) = true

-- `evidence_note` counts when it is a text that is not empty.
abbrev pub has_note : Option String → Bool
has_note none = false
has_note (some s) = not (is_empty s)

unfoldable pub require_confirming_record :
    String → Value → List String → List Entry → Option String → Bool → Result (Unit {0})
unfolding some_confirms
require_confirming_record method cause_domain evidence entries note synthetic =
    if not (is_some (confirming_kind method)) || is_nil evidence || has_note note
    then ok tt
    else (do
      confirmed ← some_confirms method cause_domain entries synthetic evidence
      raise_if (not confirmed)
          (state_error ("None of the linked records confirms it: 'confirmed by " & method & "'")))
