-- ===== src/Ledger/Validate/Closure.antt =====
-- The branch of `validate` for `case_closure`.
use veyra_demo.Ledger.Confirmation.{has_note, require_confirming_record}
use veyra_demo.Ledger.Entry.{Entry, ids}
use veyra_demo.Ledger.Lifecycle.{as_ledger_error}
use veyra_demo.Ledger.Payload.{choice, choice_if, id_list, text_if}
use veyra_demo.Ledger.Platform.{Platform}
use veyra_demo.Ledger.Request.{Request, Validated, latest_run, run_entry}
use veyra_demo.Ledger.Validate.Decisions.{domains, id_link, id_of}
use veyra_demo.Prelude.{
  Bool, List, Option, String, [], elem, false, if◌then◌else◌, is_nil, keep, last?, none, not, some,
  true, ◌&&◌, ◌++◌, ◌==◌, ◌||◌, ◌∷◌,
}
use veyra_demo.Python.Result.{Result, err, ledger_error, ok, raise_if, type_error, ◌>>=◌, ◌>>◌}
use veyra_demo.Python.Text.{◌&◌}
use veyra_demo.Python.Value.{
  Dict, Value, binary, bool, dict, empty, float, get, insert, int, is_up_to, item, iterate, null,
  obj, str, subscript, text?, texts,
}

-- the kinds of record that a closure may link
abbrev evidence_kinds : List String
evidence_kinds =
    "check_execution" ∷ "reproduction_attempt" ∷ "outcome" ∷ "hypothesis_status" ∷ "outcome_review"
    ∷ []

-- `_run_entry(entries, run_id) if run_id is not None else _latest_run(entries)`
unfoldable pub closed_run : List Entry → Value → Result (Option Entry)
closed_run entries null = ok (latest_run entries)
closed_run entries v = do run ← run_entry entries v; ok (some run)

-- `hours_to_cause`: absent, or a number that is no Boolean, from 0 to a year
unfoldable pub is_duration : Value → Bool
is_duration null = true
is_duration (int n) = is_up_to 8760 (binary n 0)
is_duration (float x) = is_up_to 8760 x
is_duration _ = false

-- `CONFIRMING_METHODS`
abbrev pub confirming_methods : List String
confirming_methods = "inspection" ∷ "reproduction" ∷ "fix_resolved_it" ∷ []

abbrev pub is_confirming : Option String → Bool
is_confirming none = false
is_confirming (some m) = elem m confirming_methods

-- `EVIDENCE_STRENGTH.get(method) if method else None`
unfoldable pub evidence_strength : Option String → Value
evidence_strength none = null
evidence_strength (some m) =
    if m == "inspection" || m == "reproduction"
    then str "direct"
    else if m == "fix_resolved_it"
    then str "indirect"
    else if m == "evidence_in_case"
    then str "circumstantial"
    else if m == "engineer_judgement"
    then str "judgement"
    else null

abbrev pub method_name : Option String → String
method_name none = "None"
method_name (some m) = m

-- The three guards on the confirmation: a record for the method, a confirming method, a record
-- that confirms.
unfoldable pub guard_confirmed :
    Request → Dict → String → Option String → List String → Option String → Result (Unit {0})
guard_confirmed r payload status method evidence note = do
  raise_if (is_confirming method && is_nil evidence && not (has_note note)) (
      ledger_error (
        "'"
        & method_name method
        & "' needs the record that shows it: link an entry of this case or describe it in evidence_note"))
  raise_if (status == "cause_confirmed" && not (is_confirming method)) (
      ledger_error
        "'Confirmed' needs inspection, reproduction or a fix that resolved it; evidence in the case or an engineer's judgement supports 'probable'")
  if status == "cause_confirmed"
      then as_ledger_error (
          require_confirming_record (method_name method) (get "cause_domain" payload) evidence
            r.entries note r.state.synthetic)
      else ok tt

-- `{b["domain"]: b["status"] for b in belief}`; the engine writes text domains
unfoldable pub statuses : Dict → List Value → Result Dict
statuses d [] = ok d
statuses d (b ∷ bs) = do
  domain ← subscript "domain" b
  status ← subscript "status" b
  elim domain [ str k ↦ statuses (insert k status d) bs | _ ↦ err type_error ]

unfoldable pub engine_statuses : Option Entry → Result Value
unfolding statuses
engine_statuses none = ok null
engine_statuses (some run) = do
  belief ← item "belief" run.payload
  rows ← iterate belief
  d ← statuses empty rows
  ok (obj d)

unfoldable pub run_id_of : Option Entry → Result Value
run_id_of none = ok null
run_id_of (some run) = item "run_id" run.payload

-- `_choice(…) or ("not_yet_known" if fix else None)`
abbrev fix_state : Option String → Option String → Value
fix_state (some held) fix = str held
fix_state none none = null
fix_state none (some _) = str "not_yet_known"

-- the last closure of the case
unfoldable pub previous_closure : List Entry → Option Entry
previous_closure entries = last? (keep (λ e. e.kind == "case_closure") entries)

unfoldable pub case_closure : Platform → Request → Dict → Result Validated
unfolding closed_run guard_confirmed engine_statuses run_id_of previous_closure
case_closure p r payload = do
  run ← closed_run r.entries (get "run_id" payload)
  raise_if (not (is_duration (get "hours_to_cause" payload)))
      (ledger_error "hours_to_cause must be a number of hours (0 to 8760)")
  status ←
      choice payload "investigation_status"
        ("cause_confirmed" ∷ "cause_probable" ∷ "cause_unknown" ∷ "not_reproduced" ∷ [])
  let has_cause = elem status ("cause_confirmed" ∷ "cause_probable" ∷ [])
  method ← choice_if has_cause payload "confirmed_by" (
      "inspection" ∷ "reproduction" ∷ "fix_resolved_it" ∷ "evidence_in_case" ∷ "engineer_judgement"
      ∷ [])
  evidence ←
      id_list payload "evidence_entries" (ids (keep (λ e. elem e.kind evidence_kinds) r.entries))
        "Check executions, reproductions, outcomes or reviews"
  note ← text_if false payload "evidence_note" 1000
  guard_confirmed r payload status method evidence note
  resolution ← choice payload "resolution_status" (
      "resolved" ∷ "temporary_workaround" ∷ "not_yet_repaired" ∷ "not_resolved" ∷ "machine_retired"
      ∷ "handed_over" ∷ [])
  fix ← text_if false payload "fix" 1000
  run_id ← run_id_of run
  domain ← choice_if has_cause payload "cause_domain" domains
  cause ← text_if has_cause payload "cause" 1000
  held ← choice_if false payload "fix_held" ("held" ∷ "partly" ∷ "not_held" ∷ "not_yet_known" ∷ [])
  handed ← text_if (resolution == "handed_over") payload "handed_over_to" 300
  decisive ← text_if false payload "decisive_check" 200
  applies ← text_if false payload "applies_when" 1000
  saved ← text_if false payload "would_have_saved_time" 2000
  acceptance ←
      choice_if false payload "engineer_acceptance" ("accepted" ∷ "partly" ∷ "rejected" ∷ [])
  symptom ←
      choice_if false payload "symptom_after_fix"
        ("gone" ∷ "still_present" ∷ "unknown" ∷ "no_fix" ∷ [])
  at_closure ← engine_statuses run
  let previous = previous_closure r.entries
  ok (
    dict (
        ("run_id", run_id)
        ∷ ("investigation_status", str status)
        ∷ ("cause_domain", text? domain)
        ∷ ("cause", text? cause)
        ∷ ("confirmed_by", text? method)
        ∷ ("evidence_strength", evidence_strength method)
        ∷ ("evidence_entries", texts evidence)
        ∷ ("evidence_note", text? note)
        ∷ ("resolution_status", str resolution)
        ∷ ("fix", text? fix)
        ∷ ("fix_held", fix_state held fix)
        ∷ ("handed_over_to", text? handed)
        ∷ ("decisive_check", text? decisive)
        ∷ ("applies_when", text? applies)
        ∷ ("hours_to_cause", get "hours_to_cause" payload)
        ∷ ("would_have_saved_time", text? saved)
        ∷ ("engineer_acceptance", text? acceptance)
        ∷ ("symptom_after_fix", text? symptom)
        ∷ ("root_cause_verified", bool (status == "cause_confirmed"))
        ∷ ("engine_status_at_closure", at_closure)
        ∷ ("supersedes", id_of previous)
        ∷ (
          "boundary",
          str
              "The engineer's conclusion, with the stated method and evidence strength. 'Probable' is not proof. A later conclusion can supersede it; both stay on record.",
        )
        ∷ []),
    id_link run ++ evidence ++ id_link previous,
  )
