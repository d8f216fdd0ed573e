-- ===== src/Ledger/Validate/Outcomes.antt =====
-- The branches of `validate` for `outcome`, `outcome_review` and `recurrence_check`.
use veyra_demo.Ledger.Entry.{Entry}
use veyra_demo.Ledger.Payload.{choice, id_list, text, text_if, time}
use veyra_demo.Ledger.Platform.{Platform, instant}
use veyra_demo.Ledger.Request.{Request, State, Validated, find}
use veyra_demo.Prelude.{
  Bool, List, String, [], any, false, if◌then◌else◌, is_nil, leb, ltb, not, ℕ, ◌&&◌, ◌==◌, ◌∷◌,
}
use veyra_demo.Python.Result.{
  Result, err, ledger_error, ok, or_raise, raise_if, type_error, value_error, ◌>>=◌, ◌>>◌,
}
use veyra_demo.Python.Text.{strip}
use veyra_demo.Python.Value.{Dict, Value, bool, dict, get, is_str, item, str, text?, texts, truthy}

-- `datetime.fromisoformat(s)` of a text that the ledger wrote
unfoldable pub moment_of : Platform → String → Result ℕ
moment_of p s = do m ← or_raise (p.parse_iso s) value_error; ok (instant m)

unfoldable pub moment_of_value : Platform → Value → Result ℕ
moment_of_value p (str s) = moment_of p s
moment_of_value p _ = err type_error

-- `sample_times.get(import_id, [])`
abbrev pub samples_of : String → List (String × List ℕ) → List ℕ
samples_of import_id [] = []
samples_of import_id ((j, ts) ∷ m) = if j == import_id then ts else samples_of import_id m

abbrev pub is_within : ℕ → ℕ → ℕ → Bool
is_within start end t = leb start t && leb t end

-- Some import among `evidence` has a sample in the window.
unfoldable pub covers_window : State → List String → ℕ → ℕ → Bool
covers_window s evidence start end =
    any (λ i. any (is_within start end) (samples_of i s.import_sample_times)) evidence

unfoldable pub guard_after_action : Platform → Entry → ℕ → Result (Unit {0})
guard_after_action p acted start =
    if truthy (get "performed_at" acted.payload)
    then (do
      performed_at ← moment_of_value p (get "performed_at" acted.payload)
      raise_if (ltb start performed_at)
          (ledger_error "The observation window cannot start before the action"))
    else ok tt

unfoldable pub outcome : Platform → Request → Dict → Result Validated
unfolding guard_after_action
outcome p r payload = do
  acted ← find r.entries (get "action_id" payload) "action"
  acted_status ← item "status" acted.payload
  raise_if (is_str "not_performed" acted_status)
      (ledger_error "An outcome must follow an action that was performed (or explicitly simulated)")
  result ←
      choice payload "result"
        ("recovered" ∷ "partially_recovered" ∷ "not_recovered" ∷ "unknown" ∷ [])
  start ← time p payload "observed_from" r.now
  end ← time p payload "observed_to" r.now
  end_t ← moment_of p end
  start_t ← moment_of p start
  raise_if (leb end_t start_t) (ledger_error "observed_to must be after observed_from")
  guard_after_action p acted start_t
  verification ← choice payload "verification" ("unverified" ∷ "evidence_attached" ∷ [])
  evidence ← id_list payload "evidence" r.state.import_ids "Evidence imports"
  raise_if (verification == "evidence_attached" && is_nil evidence)
      (ledger_error "evidence_attached needs at least one import covering the observation window")
  raise_if
      (verification == "evidence_attached" && not (covers_window r.state evidence start_t end_t))
      (ledger_error "None of the attached imports has records inside the observation window")
  observations ← text payload "observations" 4000
  ok (
    dict (
        ("action_id", str acted.id)
        ∷ ("result", str result)
        ∷ ("observed_from", str start)
        ∷ ("observed_to", str end)
        ∷ ("verification", str verification)
        ∷ ("evidence", texts evidence)
        ∷ ("observations", str observations)
        ∷ ("simulated", bool (is_str "simulated" acted_status))
        ∷ ("verification_grade", str "engineer_reported_not_independently_reviewed")
        ∷ []),
    acted.id ∷ [],
  )

-- `a.strip().casefold() == b.strip().casefold()`
abbrev pub same_person : Platform → String → String → Bool
same_person p a b = p.casefold (strip a) == p.casefold (strip b)

unfoldable pub outcome_review : Platform → Request → Dict → Result Validated
outcome_review p r payload = do
  reviewed ← find r.entries (get "outcome_id" payload) "outcome"
  raise_if (same_person p reviewed.actor r.actor) (
      ledger_error
        "An outcome review needs a different person from the one who recorded the outcome")
  verdict ← choice payload "verdict" ("accepted" ∷ "rejected" ∷ [])
  reason ← text payload "reason" 4000
  ok (
    dict (
        ("outcome_id", str reviewed.id)
        ∷ ("verdict", str verdict)
        ∷ ("reason", str reason)
        ∷ (
          "boundary",
          str "Second-person review; identities are not authenticated in the local tool",
        )
        ∷ []),
    reviewed.id ∷ [],
  )

unfoldable pub recurrence_check : Platform → Request → Dict → Result Validated
recurrence_check p r payload = do
  followed ← find r.entries (get "outcome_id" payload) "outcome"
  start ← time p payload "window_from" r.now
  end ← time p payload "window_to" r.now
  end_t ← moment_of p end
  start_t ← moment_of p start
  raise_if (leb end_t start_t) (ledger_error "window_to must be after window_from")
  recurred ← choice payload "recurred" ("yes" ∷ "no" ∷ "unknown" ∷ [])
  evidence ← id_list payload "evidence" r.state.import_ids "Evidence imports"
  note ← text_if false payload "note" 4000
  ok (
    dict (
        ("outcome_id", str followed.id)
        ∷ ("window_from", str start)
        ∷ ("window_to", str end)
        ∷ ("recurred", str recurred)
        ∷ ("evidence", texts evidence)
        ∷ ("note", text? note)
        ∷ []),
    followed.id ∷ [],
  )
