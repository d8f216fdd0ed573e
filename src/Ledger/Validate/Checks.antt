-- ===== src/Ledger/Validate/Checks.antt =====
-- The branches of `validate` for `check_review`, `check_execution` and `request_sent`.
use veyra_demo.Engine.Outcomes.{outcome_names}
use veyra_demo.Ledger.Entry.{Entry}
use veyra_demo.Ledger.Lifecycle.{transition}
use veyra_demo.Ledger.Payload.{choice, id_list, text, text_if, time}
use veyra_demo.Ledger.Platform.{Platform}
use veyra_demo.Ledger.Request.{Request, Validated, require_current_run}
use veyra_demo.Prelude.{
  Bool, List, Option, String, [], any, elem, false, if◌then◌else◌, is_nil, last?, map, none, not,
  some, true, ◌&&◌, ◌==◌, ◌∷◌,
}
use veyra_demo.Python.Result.{
  Result, err, ledger_error, ok, or_raise, raise_if, select, traverse, ◌>>=◌, ◌>>◌,
}
use veyra_demo.Python.Text.{◌&◌}
use veyra_demo.Python.Value.{
  Dict, Value, all_texts?, arr, cons, dict, dot_get, empty, get, is_str, item, iterate, last_with,
  null, obj, str, text?, texts, truthy, update, value_eq,
}

unfoldable pub candidate : Entry → String → Result Value
candidate run check_id = do
  listed ← item "candidates" run.payload
  cs ← iterate listed
  found ← last_with "check_id" check_id none cs
  or_raise found (ledger_error ("'" & check_id & "' is not a check proposed by this run"))

-- the procedure of an edited check
unfoldable pub edited_procedure : Dict → String → Result (Option String)
edited_procedure payload verdict =
    if verdict == "edited"
    then (do procedure ← text payload "edited_procedure" 4000; ok (some procedure))
    else ok none

abbrev pub edit_fields : String → Dict
edit_fields procedure = dict (
    ("edited_procedure", str procedure)
    ∷ ("authorization", str "manual_only_edited_procedures_are_never_auto_executed")
    ∷ [])

abbrev pub with_edit : Dict → Option String → Dict
with_edit out none = out
with_edit out (some procedure) = update out (edit_fields procedure)

unfoldable pub check_review : Platform → Request → Dict → Result Validated
unfolding candidate edited_procedure
check_review p r payload = do
  run ← require_current_run r (get "run_id" payload)
  check_id ← text payload "check_id" 4000
  run_id ← item "run_id" run.payload
  transition "check_review" r.entries run_id check_id
  proposal ← candidate run check_id
  verdict ← choice payload "verdict" ("accepted" ∷ "rejected" ∷ "edited" ∷ [])
  reason ← text payload "reason" 4000
  edited ← edited_procedure payload verdict
  ok (
    with_edit
        (dict (
          ("run_id", run_id)
          ∷ ("check_id", str check_id)
          ∷ ("verdict", str verdict)
          ∷ ("reason", str reason)
          ∷ ("proposed", proposal)
          ∷ []))
        edited,
    run.id ∷ [],
  )

-- `e["kind"] == "check_review" and e["payload"]["run_id"] == run_id and e["payload"]["check_id"] == check_id`
unfoldable pub is_review_of : Value → String → Entry → Result Bool
is_review_of run_id check_id e =
    if e.kind == "check_review"
    then (do
      reviewed ← item "run_id" e.payload
      if value_eq reviewed run_id
          then (do check ← item "check_id" e.payload; ok (is_str check_id check))
          else ok false)
    else ok false

-- `any(… for e in entries)`: the first that holds ends the search.
unfoldable pub any_review : Value → String → List Entry → Result Bool
any_review run_id check_id [] = ok false
any_review run_id check_id (e ∷ es) =
    let rest = any_review run_id check_id es in
    do here ← is_review_of run_id check_id e; if here then ok true else rest

-- The last review of the check, if its verdict is not "rejected".
unfoldable pub standing_review : Value → String → List Entry → String → Result Entry
unfolding is_review_of select
standing_review run_id check_id entries message = do
  reviews ← select (is_review_of run_id check_id) entries
  review ← or_raise (last? reviews) (ledger_error message)
  verdict ← item "verdict" review.payload
  raise_if (is_str "rejected" verdict) (ledger_error message)
  ok review

-- The names that an outcome of this check may have.
unfoldable pub allowed_outcomes : String → Entry → Result (List Value)
allowed_outcomes check_id review =
    if is_nil (outcome_names check_id)
    then (do
      proposal ← item "proposed" review.payload
      expected ← dot_get "expected" proposal
      if truthy expected then iterate expected else ok [])
    else ok (map str (outcome_names check_id))

unfoldable pub read_outcome : String → Entry → Value → Result Dict
unfolding allowed_outcomes
read_outcome check_id review null = ok empty
read_outcome check_id review value = do
  allowed ← allowed_outcomes check_id review
  raise_if (is_nil allowed)
      (ledger_error (check_id & " has no named outcomes; describe the result in observations"))
  raise_if (not (any (value_eq value) allowed))
      (ledger_error "'outcome' must be one of the named outcomes")
  ok (dict (("outcome", value) ∷ []))

-- `status in ("performed", "inconclusive")`
unfoldable pub performed_result : Platform → Request → String → String → Entry → Dict → Result Dict
unfolding read_outcome
performed_result p r status check_id review payload = do
  executed_at ← time p payload "executed_at" r.now
  performer ← text payload "performer" 4000
  observations ← text payload "observations" 4000
  evidence ← id_list payload "evidence" r.state.import_ids "Evidence imports"
  raise_if (status == "performed" && is_nil evidence && not (truthy (get "evidence_note" payload)))
      (ledger_error
        "A performed check needs evidence (import IDs) or an evidence_note explaining where the record is")
  note ← text_if false payload "evidence_note" 4000
  named ← read_outcome check_id review (get "outcome" payload)
  ok (
      update
        (dict (
          ("executed_at", str executed_at)
          ∷ ("performer", str performer)
          ∷ ("observations", str observations)
          ∷ ("evidence", texts evidence)
          ∷ ("evidence_note", text? note)
          ∷ []))
        named)

-- `status == "automatic_read_only"`
unfoldable pub automatic_result : Value → Result Dict
automatic_result (obj d) = ok (dict (("tool_result", obj d) ∷ []))
automatic_result _ = err (ledger_error "Automatic execution must carry its tool result")

unfoldable pub execution_result : Platform → Request → String → String → Entry → Dict → Result Dict
unfolding performed_result automatic_result
execution_result p r status check_id review payload =
    if elem status ("performed" ∷ "inconclusive" ∷ [])
    then performed_result p r status check_id review payload
    else if status == "not_performed"
    then (do reason ← text payload "reason" 4000; ok (dict (("reason", str reason) ∷ [])))
    else automatic_result (get "tool_result" payload)

-- The two guards on an automatic result.
unfoldable pub guard_automatic : Request → String → Value → Result (Unit {0})
guard_automatic r status verdict = do
  raise_if (status == "automatic_read_only" && not (is_str "accepted" verdict))
      (ledger_error "Only an accepted, unedited check can run automatically")
  raise_if (status == "automatic_read_only" && not r.trusted_automatic)
      (ledger_error "Automatic execution results can only be generated by the engine")

unfoldable pub procedure_of : Entry → Result Value
procedure_of review =
    if truthy (get "edited_procedure" review.payload)
    then ok (get "edited_procedure" review.payload)
    else (do proposal ← item "proposed" review.payload; dot_get "question" proposal)

unfoldable pub guard_answered : Bool → Request → Value → String → Result (Unit {0})
guard_answered true r run_id check_id = do
  transition "check_execution" r.entries run_id check_id
  ok tt
guard_answered false r run_id check_id = ok tt

unfoldable pub check_execution : Platform → Request → Dict → Result Validated
unfolding any_review standing_review guard_answered guard_automatic procedure_of execution_result
check_execution p r payload = do
  run ← require_current_run r (get "run_id" payload)
  check_id ← text payload "check_id" 4000
  run_id ← item "run_id" run.payload
  reviewed ← any_review run_id check_id r.entries
  guard_answered reviewed r run_id check_id
  review ←
      standing_review run_id check_id r.entries
        "Accept or edit this check (with a reason) before recording its execution"
  status ←
      choice payload "status"
        ("performed" ∷ "not_performed" ∷ "inconclusive" ∷ "automatic_read_only" ∷ [])
  verdict ← item "verdict" review.payload
  guard_automatic r status verdict
  procedure ← procedure_of review
  result ← execution_result p r status check_id review payload
  ok (
    update
        (dict (
          ("run_id", run_id)
          ∷ ("check_id", str check_id)
          ∷ ("status", str status)
          ∷ ("review_id", str review.id)
          ∷ ("procedure", procedure)
          ∷ []))
        result,
    run.id ∷ review.id ∷ [],
  )

-- One round of the loop over `check_ids`: the id of the standing review.
unfoldable pub sent_review : Request → Value → String → Result String
sent_review r run_id check_id = do
  review ←
      standing_review run_id check_id r.entries
        ("Approve " & check_id & " before recording that the request was sent")
  transition "request_sent" r.entries run_id check_id
  ok review.id

unfoldable pub requested_checks : Value → Result (List String)
requested_checks (arr (cons v vs)) =
    or_raise (all_texts? (cons v vs))
      (ledger_error "check_ids must list the checks the request asks for")
requested_checks _ = err (ledger_error "check_ids must list the checks the request asks for")

abbrev request_channels : List String
request_channels = "email" ∷ "phone" ∷ "chat" ∷ "ticket" ∷ "in_person" ∷ "other" ∷ []

unfoldable pub request_sent : Platform → Request → Dict → Result Validated
unfolding requested_checks sent_review
request_sent p r payload = do
  run ← require_current_run r (get "run_id" payload)
  check_ids ← requested_checks (get "check_ids" payload)
  run_id ← item "run_id" run.payload
  reviews ← traverse (sent_review r run_id) check_ids
  channel ← choice payload "channel" request_channels
  sent_to ← text payload "sent_to" 200
  sent_at ← time p payload "sent_at" r.now
  reference ← text_if false payload "reference" 300
  ok (
    dict (
        ("run_id", run_id)
        ∷ ("check_ids", texts check_ids)
        ∷ ("channel", str channel)
        ∷ ("sent_to", str sent_to)
        ∷ ("sent_at", str sent_at)
        ∷ ("reference", text? reference)
        ∷ (
          "boundary",
          str "Stated by the person who sent it. Veyra did not send it and has not seen a reply.",
        )
        ∷ []),
    run.id ∷ reviews,
  )
