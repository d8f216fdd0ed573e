-- ===== src/Ledger/Validate/Notes.antt =====
-- The branches of `validate` for `event_note`, `normal_proposal` and `normal_review`.
use veyra_demo.Ledger.Payload.{choice, choice_if, str_of, text, text_if}
use veyra_demo.Ledger.Platform.{Platform}
use veyra_demo.Ledger.Request.{Request, Validated, find, require_current_run}
use veyra_demo.Ledger.Validate.Findings.{get_list}
use veyra_demo.Ledger.Validate.Outcomes.{same_person}
use veyra_demo.Prelude.{
  Bool, List, String, [], any, every, false, if◌then◌else◌, not, or_else, take, true, ◌++◌, ◌==◌,
  ◌∷◌,
}
use veyra_demo.Python.Result.{Result, err, ledger_error, ok, raise_if, type_error, ◌>>=◌, ◌>>◌}
use veyra_demo.Python.Text.{prefix, ◌&◌}
use veyra_demo.Python.Value.{
  Dict, Value, arr, bool, dict, empty, entry, get, is_hashable, is_int, is_str, item, items,
  iterate, null, obj, of_items, str, text?, truthy, update,
}

-- `lines`: a list of integers
unfoldable pub read_lines : Value → Result (List Value)
read_lines v =
    if truthy v
    then elim v [
      | arr ns ↦
          if every is_int (items ns)
          then ok (items ns)
          else err (ledger_error "lines must be a list of line numbers")
      | _ ↦ err (ledger_error "lines must be a list of line numbers")
    ]
    else ok []

abbrev is_true : Value → Bool
is_true (bool true) = true
is_true _ = false

-- what a note for the whole machine must carry
unfoldable pub machine_baseline : String → Dict → Result Dict
machine_baseline scope payload =
    if scope == "machine"
    then (do
      raise_if (not (is_true (get "confirmed" payload)))
          (ledger_error "A machine baseline needs an explicit confirmation (confirmed: true)")
      evidence ← text payload "evidence" 1000
      applies ← text payload "applies_when" 500
      ok (
          dict (
            ("evidence", str evidence)
            ∷ ("applies_when", str applies)
            ∷ ("confirmed", bool true)
            ∷ [])))
    else ok empty

unfoldable pub event_note : Platform → Request → Dict → Result Validated
unfolding read_lines machine_baseline
event_note p r payload = do
  lines ← read_lines (get "lines" payload)
  chosen ← choice_if false payload "scope" ("case" ∷ "machine" ∷ [])
  let scope = or_else "case" chosen
  pattern' ← text payload "pattern" 400
  verdict ← choice payload "verdict" ("normal" ∷ "relevant" ∷ [])
  note ← text_if false payload "note" 500
  baseline ← machine_baseline scope payload
  ok (
    update
        (dict (
          ("pattern", str pattern')
          ∷ ("verdict", str verdict)
          ∷ ("scope", str scope)
          ∷ ("lines", arr (of_items (take 50 lines)))
          ∷ ("note", text? note)
          ∷ []))
        baseline,
    [],
  )

-- `{r for b in belief for r in b.get("observation_rules", [])}`
unfoldable pub observed_rules : List Value → Result (List Value)
observed_rules [] = ok []
observed_rules (b ∷ bs) = do
  here ← get_list "observation_rules" b
  rules ← iterate here
  rest ← observed_rules bs
  ok (rules ++ rest)

-- `observation_key` with its rule
unfoldable pub read_key : Value → Result (Dict × String)
read_key (obj d) = elim (get "rule" d) [
  | str rule ↦ ok (d, rule)
  | _ ↦ err (ledger_error "observation_key must name the finding's rule (and its signal and scope)")
]
read_key _ =
    err (ledger_error "observation_key must name the finding's rule (and its signal and scope)")

-- `{k: str(key[k])[:300] for k in (…) if key.get(k) is not None}`
unfoldable pub clean_key : Platform → List String → Dict → Dict
clean_key p [] key = empty
clean_key p (k ∷ ks) key =
    let rest = clean_key p ks key in
    elim (get k key) [ null ↦ rest | v ↦ entry k (str (prefix 300 (str_of p v))) rest ]

unfoldable pub normal_proposal : Platform → Request → Dict → Result Validated
unfolding observed_rules read_key clean_key
normal_proposal p r payload = do
  run ← require_current_run r (get "run_id" payload)
  key ← read_key (get "observation_key" payload)
  belief ← item "belief" run.payload
  rows ← iterate belief
  observed ← observed_rules rows
  raise_if (any (λ v. not (is_hashable v)) observed) type_error
  raise_if (not (any (is_str key.1) observed))
      (ledger_error ("Rule " & key.1 & " was not observed in this run"))
  scope ← choice payload "scope" ("machine" ∷ "machine_type" ∷ [])
  run_id ← item "run_id" run.payload
  words ← text payload "observation_text" 1000
  class ← text_if (scope == "machine_type") payload "machine_class" 100
  reason ← text payload "reason" 1000
  ok (
    dict (
        ("run_id", run_id)
        ∷ ("observation_key", obj (clean_key p ("rule" ∷ "signal" ∷ "scope" ∷ "value" ∷ []) key.0))
        ∷ ("observation_text", str words)
        ∷ ("scope", str scope)
        ∷ ("machine_class", text? class)
        ∷ ("reason", str reason)
        ∷ (
          "boundary",
          str
              "Proposal only. It applies to later investigations once a different person approves it.",
        )
        ∷ []),
    run.id ∷ [],
  )

unfoldable pub normal_review : Platform → Request → Dict → Result Validated
normal_review p r payload = do
  proposal ← find r.entries (get "proposal_id" payload) "normal_proposal"
  raise_if (same_person p proposal.actor r.actor)
      (ledger_error "A different person must review a 'normal for this machine' proposal")
  verdict ← choice payload "verdict" ("approved" ∷ "rejected" ∷ [])
  reason ← text payload "reason" 4000
  ok (
    dict (
        ("proposal_id", str proposal.id)
        ∷ ("verdict", str verdict)
        ∷ ("reason", str reason)
        ∷ (
          "boundary",
          str "Second-person review; identities are not authenticated in the local tool",
        )
        ∷ []),
    proposal.id ∷ [],
  )
