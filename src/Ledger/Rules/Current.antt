-- ===== src/Ledger/Rules/Current.antt =====
-- The run that a human record refers to: the latest of the case, on the evidence and the context
-- of now (`_require_current_run`).
use veyra_demo.Ledger.Accepted.{of_request}
use veyra_demo.Ledger.Entry.{Entry}
use veyra_demo.Ledger.Links.{run_entry-In}
use veyra_demo.Ledger.Platform.{Platform}
use veyra_demo.Ledger.Request.{
  Request, State, Validated, is_latest, latest_run, request, require_current_run, run_entry,
  staleness,
}
use veyra_demo.Ledger.Validate.{dispatch, validate, validators}
use veyra_demo.Ledger.Validate.Checks.{check_execution, check_review, request_sent}
use veyra_demo.Ledger.Validate.Decisions.{decision, dispatch_preparation}
use veyra_demo.Ledger.Validate.Findings.{hypothesis_status}
use veyra_demo.Ledger.Validate.Machine.{run_record}
use veyra_demo.Ledger.Validate.Notes.{normal_proposal}
use veyra_demo.Ledger.Validate.Reports.{intervention_review, reproduction_attempt}
use veyra_demo.Prelude.{
  All, All-In, Bool, In, List, String, [], all_cons, all_nil, elem, elem-In, false, first, is_nil,
  later, not, refl, subst, sym, true, ℕ, ◌∙◌, ◌∷◌, ◌≡◌,
}
use veyra_demo.Python.Result.{
  >>=-eq-ok, Ensures, Ensures-bind, Ensures-if, ok, raise_if, raise_if-not-ok, raises, returns,
}
use veyra_demo.Python.Value.{Dict, Value, get, item, item-get, obj, str, value_eq, value_eq-str}

-- `run` is the last investigation run of the case, and the evidence and the machine's context are
-- still those that it was made from.
pub record IsCurrent (r : Request) (run : Entry) : Type 0 where
  pub stored : In run r.entries
  pub latest : is_latest (latest_run r.entries) run ≡ true
  pub same_evidence : value_eq (get "input_hashes" run.payload) (obj r.state.input_hashes) ≡ true
  pub same_context : get "context_hash_current" run.payload ≡ str r.state.context_hash_current

staleness-none : (a b : Bool) → is_nil (staleness a b) ≡ true → (a ≡ true) × (b ≡ true)
staleness-none true true h = (refl, refl)
staleness-none true false h = cc
staleness-none false true h = cc
staleness-none false false h = cc

pub require_current_run-IsCurrent :
    (r : Request) (v : Value) (run : Entry) → require_current_run r v ≡ ok run → IsCurrent r run
unfolding require_current_run
require_current_run-IsCurrent r v run h =
    let (e, found, h1) = >>=-eq-ok (run_entry r.entries v) _ h in
    let (_, newest, h2) = >>=-eq-ok (raise_if (not (is_latest (latest_run r.entries) e)) _) _ h1 in
    let (inputs, i, h3) = >>=-eq-ok (item "input_hashes" e.payload) _ h2 in
    let (context, c, h4) = >>=-eq-ok (item "context_hash_current" e.payload) _ h3 in
    let (_, kept, h5) = >>=-eq-ok (raise_if (not (is_nil _)) _) _ h4 in
    let (evidence, same) = staleness-none _ _ (raise_if-not-ok _ _ kept) in
    subst (IsCurrent r) (cc (h5)) (record {
      stored = run_entry-In r.entries v e found;
      latest = raise_if-not-ok _ _ newest;
      same_evidence =
          subst (λ x. value_eq x (obj r.state.input_hashes) ≡ true)
            (sym (item-get "input_hashes" e.payload i)) evidence;
      same_context = item-get "context_hash_current" e.payload c ∙ value_eq-str context _ same;
    })

-- The record links a current run.
pub record RestsOnCurrent (r : Request) (v : Validated) : Type 0 where
  pub run : Entry
  pub current : IsCurrent r run
  pub linked : In run.id v.1

rests :
    (r : Request) (w : Value) (run : Entry) (d : Dict) (others : List String)
    → require_current_run r w ≡ ok run
    → RestsOnCurrent r (d, run.id ∷ others)
rests r w run d others h = record {
  run = run;
  current = require_current_run-IsCurrent r w run h;
  linked = first refl;
}

rests_second :
    (r : Request) (w : Value) (run : Entry) (d : Dict) (i : String)
    → require_current_run r w ≡ ok run
    → RestsOnCurrent r (d, i ∷ run.id ∷ [])
rests_second r w run d i h = record {
  run = run;
  current = require_current_run-IsCurrent r w run h;
  linked = later (first refl);
}

ruleset current_rules = (returns, raises, Ensures-bind, Ensures-if, rests, rests_second)

abbrev Rests : String → Type 0
Rests kind =
    (p : Platform) (r : Request) (d : Dict)
    → Ensures (RestsOnCurrent r) (dispatch validators kind p r d)

check_review-Rests : Rests "check_review"
unfolding dispatch check_review
check_review-Rests p r d = search current_rules depth 24

check_execution-Rests : Rests "check_execution"
unfolding dispatch check_execution
check_execution-Rests p r d = search current_rules depth 24

request_sent-Rests : Rests "request_sent"
unfolding dispatch request_sent
request_sent-Rests p r d = search current_rules depth 24

decision-Rests : Rests "decision"
unfolding dispatch decision
decision-Rests p r d = search current_rules depth 24

dispatch_preparation-Rests : Rests "dispatch_preparation"
unfolding dispatch dispatch_preparation
dispatch_preparation-Rests p r d = search current_rules depth 24

hypothesis_status-Rests : Rests "hypothesis_status"
unfolding dispatch hypothesis_status
hypothesis_status-Rests p r d = search current_rules depth 40

reproduction_attempt-Rests : Rests "reproduction_attempt"
unfolding dispatch reproduction_attempt
reproduction_attempt-Rests p r d = search current_rules depth 30

normal_proposal-Rests : Rests "normal_proposal"
unfolding dispatch normal_proposal
normal_proposal-Rests p r d = search current_rules depth 30

agent_report-Rests : Rests "agent_report"
unfolding dispatch run_record
agent_report-Rests p r d = search current_rules depth 12

next_action-Rests : Rests "next_action"
unfolding dispatch run_record
next_action-Rests p r d = search current_rules depth 12

evidence_discovery-Rests : Rests "evidence_discovery"
unfolding dispatch run_record
evidence_discovery-Rests p r d = search current_rules depth 12

intervention_review-Rests : Rests "intervention_review"
unfolding dispatch intervention_review
intervention_review-Rests p r d = search current_rules depth 24

abbrev pub current_kinds : List String
current_kinds =
    "check_review" ∷ "check_execution" ∷ "request_sent" ∷ "decision" ∷ "dispatch_preparation"
    ∷ "hypothesis_status" ∷ "reproduction_attempt" ∷ "normal_proposal" ∷ "agent_report"
    ∷ "next_action" ∷ "evidence_discovery" ∷ "intervention_review" ∷ []

all_rest : All Rests current_kinds
all_rest = all_cons check_review-Rests (
    all_cons check_execution-Rests (
      all_cons request_sent-Rests (
        all_cons decision-Rests (
          all_cons dispatch_preparation-Rests (
            all_cons hypothesis_status-Rests (
              all_cons reproduction_attempt-Rests (
                all_cons normal_proposal-Rests (
                  all_cons agent_report-Rests (
                    all_cons next_action-Rests (
                      all_cons evidence_discovery-Rests
                        (all_cons intervention_review-Rests all_nil)))))))))))

-- A review, execution, request, decision, dispatch preparation, verdict on a hypothesis,
-- reproduction, proposal of a normal, agent report, next action, discovery or
-- judgement on an intervention is only accepted with
-- a link to the latest run of the case, made from the evidence and context that still hold.
pub validate-RestsOnCurrent :
    (p : Platform) (kind : String) (payload actor : Value) (es : List Entry) (state : State)
    (now : ℕ) (trusted : Bool) (v : Validated)
    → elem kind current_kinds ≡ true
    → validate p kind payload actor es state now trusted ≡ ok v
    → RestsOnCurrent (request actor es state now trusted) v
validate-RestsOnCurrent p kind payload actor es state now trusted v k h =
    of_request RestsOnCurrent kind p (All-In all_rest (elem-In kind current_kinds k) p) payload
      actor es state now trusted v h
