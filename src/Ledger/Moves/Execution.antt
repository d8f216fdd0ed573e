-- ===== src/Ledger/Moves/Execution.antt =====
-- What `check_execution` records.
use veyra_demo.Ledger.Entry.{Entry}
use veyra_demo.Ledger.Lifecycle.{check_state, may_act, transition, transition-may_act}
use veyra_demo.Ledger.Moves.Recorded.{Recorded, execution-allowed}
use veyra_demo.Ledger.Payload.{choice, text, text_if, time}
use veyra_demo.Ledger.Platform.{Platform}
use veyra_demo.Ledger.Request.{Request, Validated, require_current_run}
use veyra_demo.Ledger.Validate.Checks.{
  any_review, automatic_result, check_execution, execution_result, guard_answered, guard_automatic,
  performed_result, procedure_of, read_outcome, request_sent, requested_checks, sent_review,
  standing_review,
}
use veyra_demo.Prelude.{
  All, Bool, List, String, [], arith, eq_iff, false, refl, some, true, ◌∷◌, ◌≡◌,
}
use veyra_demo.Python.Result.{
  >>=-eq-ok, Ensures, Ensures-bind, Ensures-if, Ensures-ok, ok, raises, returns, traverse,
  traverse-each,
}
use veyra_demo.Python.Value.{
  Dict, Lacks, Lacks-update, Value, dict, get, get-update, item, null, obj, str, texts, update,
}

-- The fields that a result adds are none of those that name the check and its status.
pub record AddsOnly (d : Dict) : Type 0 where
  pub no_run : Lacks "run_id" d
  pub no_check : Lacks "check_id" d
  pub no_status : Lacks "status" d

AddsOnly-update : (d e : Dict) → AddsOnly d → AddsOnly e → AddsOnly (update d e)
AddsOnly-update d e hd he = record {
  no_run = Lacks-update "run_id" d e hd.no_run he.no_run;
  no_check = Lacks-update "check_id" d e hd.no_check he.no_check;
  no_status = Lacks-update "status" d e hd.no_status he.no_status;
}

adds_outcome : (v : Value) → AddsOnly (dict (("outcome", v) ∷ []))
adds_outcome v = record { no_run = refl; no_check = refl; no_status = refl }

adds_reason : (s : String) → AddsOnly (dict (("reason", str s) ∷ []))
adds_reason s = record { no_run = refl; no_check = refl; no_status = refl }

read_outcome-AddsOnly :
    (check_id : String) (review : Entry) (v : Value)
    → Ensures AddsOnly (read_outcome check_id review v)
unfolding read_outcome
read_outcome-AddsOnly check_id review null =
    returns _ (record { no_run = refl; no_check = refl; no_status = refl })
read_outcome-AddsOnly check_id review v = search (returns, Ensures-bind, adds_outcome) depth 12

automatic_result-AddsOnly : (v : Value) → Ensures AddsOnly (automatic_result v)
unfolding automatic_result
automatic_result-AddsOnly (obj d) =
    returns _ (record { no_run = refl; no_check = refl; no_status = refl })
automatic_result-AddsOnly _ = raises _

read_outcome-known :
    (check_id : String) (review : Entry) (v : Value) (named : Dict)
    → read_outcome check_id review v ≡ ok named
    → AddsOnly named
read_outcome-known check_id review v named h =
    Ensures-ok (read_outcome-AddsOnly check_id review v) h

adds_performed :
    (at performer observations evidence note : Value) (named : Dict)
    → AddsOnly named
    → AddsOnly (
        update
          (dict (
            ("executed_at", at)
            ∷ ("performer", performer)
            ∷ ("observations", observations)
            ∷ ("evidence", evidence)
            ∷ ("evidence_note", note)
            ∷ []))
          named)
adds_performed at performer observations evidence note named h =
    AddsOnly-update _ named (record { no_run = refl; no_check = refl; no_status = refl }) h

performed_result-AddsOnly :
    (p : Platform) (r : Request) (status check_id : String) (review : Entry) (payload : Dict)
    → Ensures AddsOnly (performed_result p r status check_id review payload)
unfolding performed_result
performed_result-AddsOnly p r status check_id review payload =
    search (returns, Ensures-bind, adds_performed, read_outcome-known) depth 24

execution_result-AddsOnly :
    (p : Platform) (r : Request) (status check_id : String) (review : Entry) (payload : Dict)
    → Ensures AddsOnly (execution_result p r status check_id review payload)
unfolding execution_result
execution_result-AddsOnly p r status check_id review payload =
    search
      (
        returns, Ensures-bind, Ensures-if, performed_result-AddsOnly, automatic_result-AddsOnly,
        adds_reason,
      )
      depth 12

-- What an accepted execution says: which check, with which status; and an automatic result comes
-- only from the engine's own path.
pub record Executed (es : List Entry) (trusted : Bool) (v : Validated) : Type 0 where
  pub recorded : Recorded "check_execution" es v
  pub status : String
  pub names_status : get "status" v.0 ≡ str status
  pub automatic_is_trusted : status ≡ "automatic_read_only" → trusted ≡ true

guard_automatic-trusted :
    (r : Request) (status : String) (verdict : Value) {u : Unit {0}}
    → guard_automatic r status verdict ≡ ok u
    → status ≡ "automatic_read_only"
    → r.trusted_automatic ≡ true
unfolding guard_automatic
guard_automatic-trusted r status verdict h same =
    ground (arith, eq_iff status "automatic_read_only")

abbrev head_fields : Value → String → String → String → Value → Dict
head_fields run_id check_id status review_id procedure = dict (
    ("run_id", run_id)
    ∷ ("check_id", str check_id)
    ∷ ("status", str status)
    ∷ ("review_id", str review_id)
    ∷ ("procedure", procedure)
    ∷ [])

pub check_execution-Executed :
    (p : Platform) (r : Request) (payload : Dict)
    → Ensures (Executed r.entries r.trusted_automatic) (check_execution p r payload)
unfolding check_execution
check_execution-Executed p r payload =
    let refused : String =
      "Accept or edit this check (with a reason) before recording its execution" in
    Ensures-bind (require_current_run r (get "run_id" payload)) _ λ run _.
      Ensures-bind (text payload "check_id" 4000) _ λ check_id _.
        Ensures-bind (item "run_id" run.payload) _ λ run_id _.
          Ensures-bind (any_review run_id check_id r.entries) _ λ reviewed searched.
            Ensures-bind (guard_answered reviewed r run_id check_id) _ λ _ guarded.
              Ensures-bind (standing_review run_id check_id r.entries refused) _ λ review stands.
                Ensures-bind (choice payload "status" _) _ λ status _.
                  Ensures-bind (item "verdict" review.payload) _ λ verdict _.
                    Ensures-bind (guard_automatic r status verdict) _ λ _ automatic.
                      Ensures-bind (procedure_of review) _ λ procedure _.
                        Ensures-bind (execution_result p r status check_id review payload) _
                          λ result made.
                            let adds =
                              Ensures-ok
                                (execution_result-AddsOnly p r status check_id review payload)
                                made in
                            let base = head_fields run_id check_id status review.id procedure in
                            returns _ (record {
                              recorded = record {
                                run_id = run_id;
                                check_id = check_id;
                                allowed =
                                    execution-allowed r run_id check_id refused reviewed searched
                                      guarded stands;
                                names_run = get-update "run_id" base result adds.no_run;
                                names_check = get-update "check_id" base result adds.no_check;
                              };
                              status = status;
                              names_status = get-update "status" base result adds.no_status;
                              automatic_is_trusted =
                                  guard_automatic-trusted r status verdict automatic;
                            })

-- What an accepted request says: which checks it asks for, each in a state that allows it.
pub record Requested (es : List Entry) (v : Validated) : Type 0 where
  pub run_id : Value
  pub check_ids : List String
  pub allowed : All (λ c. may_act "request_sent" (check_state es run_id c) ≡ some true) check_ids
  pub names_run : get "run_id" v.0 ≡ run_id
  pub names_checks : get "check_ids" v.0 ≡ texts check_ids

sent_review-allowed :
    (r : Request) (run_id : Value) (check_id i : String)
    → sent_review r run_id check_id ≡ ok i
    → may_act "request_sent" (check_state r.entries run_id check_id) ≡ some true
unfolding sent_review
sent_review-allowed r run_id check_id i h =
    let (review, _, h') = >>=-eq-ok (standing_review run_id check_id r.entries _) _ h in
    let (s, passed, _) = >>=-eq-ok (transition "request_sent" r.entries run_id check_id) _ h' in
    transition-may_act "request_sent" r.entries run_id check_id passed

pub request_sent-Requested :
    (p : Platform) (r : Request) (payload : Dict)
    → Ensures (Requested r.entries) (request_sent p r payload)
unfolding request_sent
request_sent-Requested p r payload =
    Ensures-bind (require_current_run r (get "run_id" payload)) _ λ run _.
      Ensures-bind (requested_checks (get "check_ids" payload)) _ λ check_ids _.
        Ensures-bind (item "run_id" run.payload) _ λ run_id _.
          Ensures-bind (traverse (sent_review r run_id) check_ids) _ λ reviews found.
            Ensures-bind (choice payload "channel" _) _ λ channel _.
              Ensures-bind (text payload "sent_to" 200) _ λ sent_to _.
                Ensures-bind (time p payload "sent_at" r.now) _ λ sent_at _.
                  Ensures-bind (text_if false payload "reference" 300) _ λ reference _.
                    returns _ (record {
                      run_id = run_id;
                      check_ids = check_ids;
                      allowed =
                          traverse-each
                            (λ c.
                              may_act "request_sent" (check_state r.entries run_id c) ≡ some true)
                            (sent_review r run_id) (sent_review-allowed r run_id) check_ids found;
                      names_run = refl;
                      names_checks = refl;
                    })
