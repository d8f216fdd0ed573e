-- ===== src/Ledger/Validate/Decisions.antt =====
-- The branches of `validate` for `decision`, `decision_proposal`, `dispatch_preparation` and
-- `action`, with `ACTIONS`, `PURPOSES` and `PROVENANCE` of backend/app/engine/decision_check.py.
use veyra_demo.Ledger.Entry.{Entry}
use veyra_demo.Ledger.Payload.{choice, str_of, text, text_if, time}
use veyra_demo.Ledger.Platform.{Platform}
use veyra_demo.Ledger.Request.{Request, Validated, find, require_current_run, run_entry}
use veyra_demo.Prelude.{
  Bool, List, Option, String, [], any, elem, false, if◌then◌else◌, is_nil, length, ltb, map, none,
  not, some, take, ◌&&◌, ◌++◌, ◌∷◌,
}
use veyra_demo.Python.Result.{
  Result, attribute_error, err, ledger_error, ok, or_raise, raise_if, traverse, type_error, ◌>>=◌,
  ◌>>◌,
}
use veyra_demo.Python.Text.{is_blank, prefix, ◌&◌}
use veyra_demo.Python.Value.{
  Dict, Value, all_texts?, arr, bool, cons, dict, dot_get, empty, get, is_hashable, is_str, item,
  items, iterate, iterate_or_empty, lookup, null, obj, of_items, str, subscript, text?, texts,
  truthy, update, value_eq,
}

-- `options_considered`: a list with an item, of texts that are not blank
unfoldable pub read_options : Value → Result (List String)
read_options (arr (cons v vs)) = do
  options ←
      or_raise (all_texts? (cons v vs))
        (ledger_error "options_considered must list the options the engineer weighed")
  raise_if (any is_blank options)
      (ledger_error "options_considered must list the options the engineer weighed")
  ok options
read_options _ = err (ledger_error "options_considered must list the options the engineer weighed")

-- The checked decision check of a proposal, if the payload names one.
unfoldable pub proposal_check : Request → Dict → Entry → Result (Option Entry)
proposal_check r payload proposal =
    if truthy (get "check_id" payload)
    then (do
      checked ← find r.entries (get "check_id" payload) "decision_check"
      raise_if (not (is_str proposal.id (get "proposal_id" checked.payload)))
          (ledger_error "check_id belongs to a different proposal")
      ok (some checked))
    else ok none

abbrev pub id_of : Option Entry → Value
id_of none = null
id_of (some e) = str e.id

abbrev pub alert_of : Option Entry → Value
alert_of none = str "not_checked"
alert_of (some e) = get "alert" e.payload

abbrev pub id_link : Option Entry → List String
id_link none = []
id_link (some e) = e.id ∷ []

-- What a decision adds when it follows a proposal, with the links that it adds.
unfoldable pub follows_proposal : Request → Dict → Result Validated
unfolding proposal_check
follows_proposal r payload = do
  proposal ← find r.entries (get "proposal_id" payload) "decision_proposal"
  checked ← proposal_check r payload proposal
  reason ← text_if false payload "proceed_reason" 600
  ok (
    dict (
        ("proposal_id", str proposal.id)
        ∷ ("check_id", id_of checked)
        ∷ ("check_alert", alert_of checked)
        ∷ ("changed_from_proposal", bool (truthy (get "changed_from_proposal" payload)))
        ∷ ("proceed_reason", text? reason)
        ∷ []),
    proposal.id ∷ id_link checked,
  )

-- `payload.get("stage") == "self_check" and payload.get("subject", {}).get("recommendation")`
unfoldable pub is_checked_recommendation : Dict → Result Bool
is_checked_recommendation d =
    if is_str "self_check" (get "stage" d)
    then (do
      found ← elim (lookup "subject" d) [
        | none ↦ ok null
        | some subject ↦ dot_get "recommendation" subject
      ]
      ok (truthy found))
    else ok false

-- What a decision adds when it accepts Veyra's own checked recommendation.
unfoldable pub follows_recommendation : Request → Dict → Result Validated
unfolding is_checked_recommendation
follows_recommendation r payload = do
  checked ← find r.entries (get "veyra_check_id" payload) "next_action"
  recommended ← is_checked_recommendation checked.payload
  raise_if (not recommended)
      (ledger_error "veyra_check_id must point to Veyra's checked recommendation")
  reason ← text_if false payload "proceed_reason" 600
  ok (
    dict (
        ("veyra_check_id", str checked.id)
        ∷ ("check_alert", get "alert" checked.payload)
        ∷ ("changed_from_proposal", bool (truthy (get "changed_from_proposal" payload)))
        ∷ ("proceed_reason", text? reason)
        ∷ []),
    checked.id ∷ [],
  )

unfoldable pub decision_basis : Request → Dict → Result Validated
unfolding follows_proposal follows_recommendation
decision_basis r payload =
    if truthy (get "proposal_id" payload)
    then follows_proposal r payload
    else if truthy (get "veyra_check_id" payload)
    then follows_recommendation r payload
    else ok (empty, [])

unfoldable pub decision : Platform → Request → Dict → Result Validated
unfolding read_options decision_basis
decision p r payload = do
  run ← require_current_run r (get "run_id" payload)
  options ← read_options (get "options_considered" payload)
  chosen ← text payload "chosen_option" 4000
  raise_if (not (elem chosen options))
      (ledger_error "chosen_option must be one of options_considered")
  run_id ← item "run_id" run.payload
  rationale ← text payload "rationale" 4000
  belief ← item "belief" run.payload
  basis ← decision_basis r payload
  ok (
    update
        (dict (
          ("run_id", run_id)
          ∷ ("options_considered", texts options)
          ∷ ("chosen_option", str chosen)
          ∷ ("rationale", str rationale)
          ∷ ("belief_at_decision", belief)
          ∷ ("dispatch_readiness_at_decision", get "dispatch_status" run.payload)
          ∷ ("boundary", str "Human decision. Not an executed action and not a verified result.")
          ∷ []))
        basis.0,
    run.id ∷ basis.1,
  )

-- `ACTIONS`, `AGENT_ACTIONS`
abbrev pub actions_of : Bool → List String
actions_of by_agent =
    ("dispatch" ∷ "replace_part" ∷ "remote_fix" ∷ "close_case" ∷ [])
    ++ (if by_agent then "remote_check" ∷ [] else [])

-- `PROVENANCE`, `PROVENANCE + AGENT_PROVENANCE`
abbrev pub provenance_of : Bool → List String
provenance_of by_agent =
    ("engineer_stated" ∷ "system_suggested_confirmed" ∷ [])
    ++ (if by_agent then "agent_proposed" ∷ [] else [])

abbrev pub domains : List String
domains = "network" ∷ "control_suite" ∷ "vehicle_interface" ∷ "vehicle_body" ∷ []

-- `{b["domain"] for b in belief or []} or {…}`
unfoldable pub known_parts : Value → Result (List Value)
known_parts belief = do
  rows ← iterate_or_empty belief
  parts ← traverse (subscript "domain") rows
  raise_if (any (λ v. not (is_hashable v)) parts) type_error
  ok (if is_nil parts then map str domains else parts)

-- the local function `part(value, key)`
unfoldable pub part : List Value → Value → String → Result Value
part parts null key = ok null
part parts v key =
    if not (is_hashable v)
    then err type_error
    else if any (value_eq v) parts
    then ok v
    else err (ledger_error ("'" & key & "' must be one of the parts"))

unfoldable pub hypothesis : List Value → List String → Value → Result Dict
unfolding part
hypothesis parts provenance (obj h) = do
  of_part ← part parts (get "part" h) "hypothesis.part"
  source ← choice h "provenance" provenance
  words ← text_if false h "text" 300
  ok (
      dict (
        (
          "hypothesis",
          obj (dict (("part", of_part) ∷ ("provenance", str source) ∷ ("text", text? words) ∷ [])),
        )
        ∷ []))
hypothesis parts provenance _ = err (ledger_error "hypothesis must be an object")

unfoldable pub relied_finding : List Value → List String → Value → Result Value
unfolding part
relied_finding parts provenance (obj f) = do
  domain ← part parts (get "domain" f) "relies_on.domain"
  rule ← text f "rule" 80
  words ← text f "text" 600
  how ← choice f "use" ("supports" ∷ "rules_out" ∷ [])
  about ← part parts (get "part" f) "relies_on.part"
  source ← choice f "provenance" provenance
  ok (
      obj (
        dict (
          ("domain", domain)
          ∷ ("rule", str rule)
          ∷ ("text", str words)
          ∷ ("use", str how)
          ∷ ("part", about)
          ∷ ("provenance", str source)
          ∷ [])))
relied_finding parts provenance _ = err attribute_error

unfoldable pub read_relied : Value → Result (List Value)
read_relied v =
    if truthy v
    then elim v [
      | arr fs ↦
          if ltb 6 (length (items fs))
          then err (ledger_error "relies_on must be a list of at most 6 findings")
          else ok (items fs)
      | _ ↦ err (ledger_error "relies_on must be a list of at most 6 findings")
    ]
    else ok []

unfoldable pub decision_proposal : Platform → Request → Dict → Result Validated
unfolding known_parts part hypothesis relied_finding read_relied
decision_proposal p r payload = do
  let by_agent = r.trusted_automatic
  let provenance = provenance_of by_agent
  run ← run_entry r.entries (get "run_id" payload)
  parts ← known_parts (get "belief" run.payload)
  run_id ← item "run_id" run.payload
  action ← choice payload "action" (actions_of by_agent)
  purpose ←
      choice payload "purpose"
        ("diagnose" ∷ "repair" ∷ "safety_inspection" ∷ "restore_service" ∷ [])
  check_id ← text_if false payload "check_id" 80
  target ← part parts (get "target_part" payload) "target_part"
  note ← text_if false payload "note" 600
  guess ←
      (if truthy (get "hypothesis" payload)
        then hypothesis parts provenance (get "hypothesis" payload)
        else ok empty)
  findings ← read_relied (get "relies_on" payload)
  relied ← traverse (relied_finding parts provenance) findings
  ok (
    update
        (update
          (dict (
            ("run_id", run_id)
            ∷ ("proposed_by", str (if by_agent then "veyra" else "engineer"))
            ∷ ("action", str action)
            ∷ ("purpose", str purpose)
            ∷ ("check_id", text? check_id)
            ∷ ("recommendation", bool (truthy (get "recommendation" payload) && by_agent))
            ∷ ("urgent", bool (truthy (get "urgent" payload)))
            ∷ ("target_part", target)
            ∷ ("note", text? note)
            ∷ []))
          guess)
        (dict (
          ("relies_on", arr (of_items relied))
          ∷ (
            "boundary",
            str
                "A proposal, not a decision. Only the hypothesis and findings listed here are the engineer's statements.",
          )
          ∷ [])),
    run.id ∷ [],
  )

-- `[str(v)[:300] for v in payload.get(key, [])][:30]`
unfoldable pub clipped : Platform → Dict → String → Result Value
clipped p payload key = do
  vs ← elim (lookup key payload) [ none ↦ ok [] | some v ↦ iterate v ]
  ok (texts (take 30 (map (λ v. prefix 300 (str_of p v)) vs)))

unfoldable pub dispatch_preparation : Platform → Request → Dict → Result Validated
unfolding clipped
dispatch_preparation p r payload = do
  run ← require_current_run r (get "run_id" payload)
  run_id ← item "run_id" run.payload
  resolution ←
      choice payload "remote_resolution"
        ("unknown" ∷ "possible" ∷ "not_possible" ∷ "reported_resolved" ∷ [])
  prepared ← clipped p payload "prepared"
  blockers ← clipped p payload "blockers"
  note ← text_if false payload "note" 4000
  ok (
    dict (
        ("run_id", run_id)
        ∷ ("remote_resolution", str resolution)
        ∷ ("prepared", prepared)
        ∷ ("blockers", blockers)
        ∷ ("note", text? note)
        ∷ (
          "boundary",
          str
              "Engineer-reported preparation. Not dispatch approval and not a confirmed failed part.",
        )
        ∷ []),
    run.id ∷ [],
  )

-- `ACTION_TYPES`
abbrev action_types : List String
action_types =
    "remote_reconfiguration" ∷ "remote_restart" ∷ "software_update" ∷ "network_change"
    ∷ "operating_change" ∷ "onsite_inspection" ∷ "component_replacement" ∷ "calibration" ∷ "other"
    ∷ []

unfoldable pub action_result : Platform → Request → String → Dict → Result Dict
action_result p r status payload =
    if elem status ("performed" ∷ "simulated" ∷ [])
    then (do
      performed_at ← time p payload "performed_at" r.now
      performer ← text payload "performer" 4000
      ok (dict (("performed_at", str performed_at) ∷ ("performer", str performer) ∷ [])))
    else (do reason ← text payload "reason" 4000; ok (dict (("reason", str reason) ∷ [])))

unfoldable pub action : Platform → Request → Dict → Result Validated
unfolding action_result
action p r payload = do
  decided ← find r.entries (get "decision_id" payload) "decision"
  status ← choice payload "status" ("performed" ∷ "simulated" ∷ "not_performed" ∷ [])
  action_type ← choice payload "action_type" action_types
  description ← text payload "description" 4000
  result ← action_result p r status payload
  ok (
    update
        (dict (
          ("decision_id", str decided.id)
          ∷ ("action_type", str action_type)
          ∷ ("description", str description)
          ∷ ("status", str status)
          ∷ []))
        result,
    decided.id ∷ [],
  )
