-- ===== src/Ledger/Validate/Reports.antt =====
-- The branches of `validate` for `intervention_report`, `intervention_review`, `triage`,
-- `reproduction_attempt`, `support_milestone`, `model_authorization` and `engineer_finding`.
use veyra_demo.Ledger.Entry.{Entry}
use veyra_demo.Ledger.Payload.{choice, choice_if, id_list, text, text_if, time}
use veyra_demo.Ledger.Platform.{Platform}
use veyra_demo.Ledger.Request.{Request, Validated, find, require_current_run, run_entry}
use veyra_demo.Ledger.Validate.Decisions.{action}
use veyra_demo.Prelude.{
  Bool, List, Option, String, [], false, if◌then◌else◌, keep, last?, none, not, some, ◌==◌, ◌||◌,
  ◌∷◌,
}
use veyra_demo.Python.Result.{Result, attribute_error, err, ok, ◌>>=◌, ◌>>◌}
use veyra_demo.Python.Text.{is_empty, strip}
use veyra_demo.Python.Value.{Dict, Value, bool, dict, get, is_str, item, null, str, text?, texts}

-- `(_text(…) or "").strip().lower() or None`
unfoldable pub lowered : Platform → Option String → Option String
lowered p none = none
lowered p (some s) = let t = p.lower (strip s) in if is_empty t then none else some t

unfoldable pub intervention_report : Platform → Request → Dict → Result Validated
unfolding lowered
intervention_report p r payload = do
  occurred_at ← time p payload "occurred_at" r.now
  type ←
      choice payload "intervention_type"
        ("takeover" ∷ "emergency_stop" ∷ "pause" ∷ "remote_disconnect" ∷ "other" ∷ [])
  operator ← text payload "operator" 200
  role ← text_if false payload "operator_role" 200
  reason ← text payload "stated_reason" 4000
  via ← text_if false payload "reported_via" 300
  symptom ← choice_if false payload "symptom" (
      "late_response" ∷ "no_response" ∷ "unexpected_motion" ∷ "erratic_motion"
      ∷ "stopped_unexpectedly" ∷ "other" ∷ [])
  affected ← text_if false payload "affected_function" 100
  ok (
    dict (
        ("occurred_at", str occurred_at)
        ∷ ("intervention_type", str type)
        ∷ ("operator", str operator)
        ∷ ("operator_role", text? role)
        ∷ ("stated_reason", str reason)
        ∷ ("reported_via", text? via)
        ∷ ("symptom", text? symptom)
        ∷ ("affected_function", text? (lowered p affected))
        ∷ (
          "boundary",
          str "The operator's stated reason at the time. Not established as correct or incorrect.",
        )
        ∷ []),
    [],
  )

unfoldable pub intervention_review : Platform → Request → Dict → Result Validated
intervention_review p r payload = do
  intervention ← find r.entries (get "intervention_id" payload) "intervention_report"
  run ← require_current_run r (get "run_id" payload)
  run_id ← item "run_id" run.payload
  verdict ← choice payload "verdict" ("necessary" ∷ "unnecessary" ∷ "unclear" ∷ [])
  reason ← text payload "reason" 4000
  ok (
    dict (
        ("intervention_id", str intervention.id)
        ∷ ("run_id", run_id)
        ∷ ("verdict", str verdict)
        ∷ ("reason", str reason)
        ∷ (
          "boundary",
          str
              "Engineer judgement on the recorded evidence. 'Unnecessary' interventions are kept as cases worth recreating.",
        )
        ∷ []),
    intervention.id ∷ run.id ∷ [],
  )

-- the run that an optional `run_id` names must exist
unfoldable pub check_run_id : List Entry → Value → Result (Unit {0})
check_run_id entries null = ok tt
check_run_id entries v = do run_entry entries v; ok tt

-- `previous[-1]["payload"]["owner"] if previous else None`
unfoldable pub prior_owner : List Entry → Result Value
prior_owner entries = elim (last? (keep (λ e. e.kind == "triage") entries)) [
  | none ↦ ok null
  | some e ↦ item "owner" e.payload
]

unfoldable pub is_handoff : Platform → Value → String → Result Bool
is_handoff p null owner = ok false
is_handoff p (str before) owner = ok (not (p.casefold before == p.casefold owner))
is_handoff p _ owner = err attribute_error

unfoldable pub triage : Platform → Request → Dict → Result Validated
unfolding check_run_id prior_owner is_handoff
triage p r payload = do
  check_run_id r.entries (get "run_id" payload)
  owner ← text payload "owner" 200
  before ← prior_owner r.entries
  severity ← choice payload "severity" ("critical" ∷ "high" ∷ "medium" ∷ "low" ∷ [])
  reason ← text payload "reason" 4000
  handoff ← is_handoff p before owner
  ok (
    dict (
        ("severity", str severity)
        ∷ ("owner", str owner)
        ∷ ("reason", str reason)
        ∷ ("run_id", get "run_id" payload)
        ∷ ("previous_owner", before)
        ∷ ("handoff", bool handoff)
        ∷ (
          "boundary",
          str
              "Human triage. Severity and ownership can change as evidence arrives; every change stays in the record.",
        )
        ∷ []),
    [],
  )

unfoldable pub reproduction_attempt : Platform → Request → Dict → Result Validated
reproduction_attempt p r payload = do
  run ← require_current_run r (get "run_id" payload)
  run_id ← item "run_id" run.payload
  environment ← choice payload "environment" ("log_replay" ∷ "simulation" ∷ "bench" ∷ "field" ∷ [])
  platform ← text payload "platform" 300
  setup ← text payload "setup" 4000
  result ←
      choice payload "result"
        ("reproduced" ∷ "partially_reproduced" ∷ "not_reproduced" ∷ "inconclusive" ∷ [])
  observations ← text payload "observations" 4000
  performed_at ← time p payload "performed_at" r.now
  evidence ← id_list payload "evidence" r.state.import_ids "Evidence imports"
  note ← text_if false payload "evidence_note" 4000
  ok (
    dict (
        ("run_id", run_id)
        ∷ ("environment", str environment)
        ∷ ("platform", str platform)
        ∷ ("setup", str setup)
        ∷ ("result", str result)
        ∷ ("observations", str observations)
        ∷ ("performed_at", str performed_at)
        ∷ ("evidence", texts evidence)
        ∷ ("evidence_note", text? note)
        ∷ (
          "boundary",
          str
              "Reproducing a symptom supports a mechanism; it does not prove it was the cause in the field.",
        )
        ∷ []),
    run.id ∷ [],
  )

abbrev milestones : List String
milestones =
    "issue_reported" ∷ "triage_started" ∷ "first_evidence_backed_check" ∷ "dispatch_requested"
    ∷ "engineer_arrived" ∷ "service_reported_restored" ∷ "case_closed" ∷ []

unfoldable pub support_milestone : Platform → Request → Dict → Result Validated
support_milestone p r payload = do
  milestone ← choice payload "milestone" milestones
  observed_at ← time p payload "observed_at" r.now
  note ← text_if false payload "note" 4000
  ok (
    dict (
        ("milestone", str milestone)
        ∷ ("observed_at", str observed_at)
        ∷ ("note", text? note)
        ∷ []),
    [],
  )

unfoldable pub model_authorization : Platform → Request → Dict → Result Validated
model_authorization p r payload = do
  provider ← choice payload "provider" ("anthropic" ∷ "openai" ∷ "openai_compatible" ∷ "local" ∷ [])
  model ← text_if false payload "model" 200
  scope ← text payload "scope" 4000
  authorized_by ← text payload "authorized_by" 300
  evidence ← text payload "evidence" 4000
  ok (
    dict (
        ("provider", str provider)
        ∷ ("model", text? model)
        ∷ ("scope", str scope)
        ∷ ("authorized_by", str authorized_by)
        ∷ ("evidence", str evidence)
        ∷ (
          "boundary",
          str
              "Covers only the provider and scope stated. Recorded by a person; not verified by Veyra.",
        )
        ∷ []),
    [],
  )

-- `payload.get("result") in ("found", "other")`
abbrev needs_observations : Value → Bool
needs_observations v = is_str "found" v || is_str "other" v

unfoldable pub engineer_finding : Platform → Request → Dict → Result Validated
engineer_finding p r payload = do
  action ← text payload "action" 500
  selected ← text_if false payload "outcome_selected" 200
  result ← choice payload "result" ("found" ∷ "not_found" ∷ "cannot_do" ∷ "other" ∷ [])
  observations ← text_if (needs_observations (get "result" payload)) payload "observations" 2000
  investigation ← text_if false payload "investigation_entry" 80
  ok (
    dict (
        ("action", str action)
        ∷ ("outcome_selected", text? selected)
        ∷ ("result", str result)
        ∷ ("observations", text? observations)
        ∷ ("investigation_entry", text? investigation)
        ∷ ("verification_grade", str "engineer_reported_not_independently_reviewed")
        ∷ []),
    [],
  )
