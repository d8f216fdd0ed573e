-- ===== src/Ledger/Links/Others.antt =====
-- The links of reports, findings, closures, notes and machine records.
use veyra_demo.Ledger.Entry.{Entry, ids}
use veyra_demo.Ledger.Links.{IsEntryId, LinksKnown, link_rules}
use veyra_demo.Ledger.Payload.{id_list, read_ids}
use veyra_demo.Ledger.Platform.{Platform}
use veyra_demo.Ledger.Request.{Request, is_run, latest_run}
use veyra_demo.Ledger.Validate.Closure.{case_closure, closed_run, previous_closure}
use veyra_demo.Ledger.Validate.Decisions.{id_link}
use veyra_demo.Ledger.Validate.Findings.{hypothesis_status, reference_declared}
use veyra_demo.Ledger.Validate.Machine.{
  decision_check, investigation_run, machine_record, run_record,
}
use veyra_demo.Ledger.Validate.Notes.{event_note, normal_proposal, normal_review}
use veyra_demo.Ledger.Validate.Reports.{
  engineer_finding, intervention_report, intervention_review, model_authorization,
  reproduction_attempt, support_milestone, triage,
}
use veyra_demo.Ledger.Validate.Walkthrough.{debug_walkthrough}
use veyra_demo.Prelude.{
  All, All-append, All-impl, Bool, Bool-cases, In, In-cons, In-map, List, Option, String, [],
  all_cons, all_nil, arith, elem, elem-In, false≢true, first, inl, inr, is_nil, keep, keep-In,
  last?, last?-In, later, none, not, refl, some, subst, true, ◌∷◌, ◌≡◌,
}
use veyra_demo.Python.Result.{>>=-eq-ok, Ensures, Ensures-ok, ok, returns}
use veyra_demo.Python.Value.{Dict, Value, get, null}

pub intervention_report-links :
    (p : Platform) (r : Request) (payload : Dict)
    → Ensures (LinksKnown r) (intervention_report p r payload)
unfolding intervention_report
intervention_report-links p r payload = search link_rules depth 24

pub intervention_review-links :
    (p : Platform) (r : Request) (payload : Dict)
    → Ensures (LinksKnown r) (intervention_review p r payload)
unfolding intervention_review
intervention_review-links p r payload = search link_rules depth 24

pub reference_declared-links :
    (p : Platform) (r : Request) (payload : Dict)
    → Ensures (LinksKnown r) (reference_declared p r payload)
unfolding reference_declared
reference_declared-links p r payload = search link_rules depth 24

pub triage-links :
    (p : Platform) (r : Request) (payload : Dict) → Ensures (LinksKnown r) (triage p r payload)
unfolding triage
triage-links p r payload = search link_rules depth 24

pub reproduction_attempt-links :
    (p : Platform) (r : Request) (payload : Dict)
    → Ensures (LinksKnown r) (reproduction_attempt p r payload)
unfolding reproduction_attempt
reproduction_attempt-links p r payload = search link_rules depth 24

pub support_milestone-links :
    (p : Platform) (r : Request) (payload : Dict)
    → Ensures (LinksKnown r) (support_milestone p r payload)
unfolding support_milestone
support_milestone-links p r payload = search link_rules depth 24

pub model_authorization-links :
    (p : Platform) (r : Request) (payload : Dict)
    → Ensures (LinksKnown r) (model_authorization p r payload)
unfolding model_authorization
model_authorization-links p r payload = search link_rules depth 24

pub engineer_finding-links :
    (p : Platform) (r : Request) (payload : Dict)
    → Ensures (LinksKnown r) (engineer_finding p r payload)
unfolding engineer_finding
engineer_finding-links p r payload = search link_rules depth 24

pub event_note-links :
    (p : Platform) (r : Request) (payload : Dict) → Ensures (LinksKnown r) (event_note p r payload)
unfolding event_note
event_note-links p r payload = search link_rules depth 24

pub normal_proposal-links :
    (p : Platform) (r : Request) (payload : Dict)
    → Ensures (LinksKnown r) (normal_proposal p r payload)
unfolding normal_proposal
normal_proposal-links p r payload = search link_rules depth 30

pub normal_review-links :
    (p : Platform) (r : Request) (payload : Dict)
    → Ensures (LinksKnown r) (normal_review p r payload)
unfolding normal_review
normal_review-links p r payload = search link_rules depth 24

pub debug_walkthrough-links :
    (p : Platform) (r : Request) (payload : Dict)
    → Ensures (LinksKnown r) (debug_walkthrough p r payload)
unfolding debug_walkthrough
debug_walkthrough-links p r payload = search link_rules depth 24

pub investigation_run-links :
    (p : Platform) (r : Request) (payload : Dict)
    → Ensures (LinksKnown r) (investigation_run p r payload)
unfolding investigation_run
investigation_run-links p r payload = search link_rules depth 24

pub machine_record-links :
    (kind : String) (p : Platform) (r : Request) (payload : Dict)
    → Ensures (LinksKnown r) (machine_record kind p r payload)
unfolding machine_record
machine_record-links kind p r payload = search link_rules depth 24

pub run_record-links :
    (kind : String) (p : Platform) (r : Request) (payload : Dict)
    → Ensures (LinksKnown r) (run_record kind p r payload)
unfolding run_record
run_record-links kind p r payload = search link_rules depth 24

pub decision_check-links :
    (p : Platform) (r : Request) (payload : Dict)
    → Ensures (LinksKnown r) (decision_check p r payload)
unfolding decision_check
decision_check-links p r payload = search link_rules depth 24

-- every id that `_ids` returns is allowed
none_unknown :
    (allowed is : List String)
    → is_nil (keep (λ v. not (elem v allowed)) is) ≡ true
    → All (λ i. In i allowed) is
none_unknown allowed [] h = all_nil
none_unknown allowed (i ∷ is) h = elim (Bool-cases (elem i allowed)) [
  | inl here ↦ all_cons (elem-In i allowed here) (none_unknown allowed is (rw here at h))
  | inr out ↦ absurd (false≢true (rw out at h))
]

pub id_list-allowed :
    (payload : Dict) (key : String) (allowed : List String) (label : String) (is : List String)
    → id_list payload key allowed label ≡ ok is
    → All (λ i. In i allowed) is
unfolding id_list
id_list-allowed payload key allowed label is h =
    let (values, read, h') = >>=-eq-ok (read_ids key (get key payload)) _ h in
    elim (Bool-cases (is_nil (keep (λ v. not (elem v allowed)) values))) [
      | inl fine ↦ subst (All (λ i. In i allowed)) (ground arith) (none_unknown allowed values fine)
      | inr bad ↦ ground arith
    ]

kept_ids :
    (q : Entry → Bool) (es : List Entry) (i : String) → In i (ids (keep q es)) → IsEntryId es i
kept_ids q [] i m = m
kept_ids q (e ∷ es) i m = elim (Bool-cases (q e)) [
  | inr out ↦ later (kept_ids q es i (rw out at m))
  | inl here ↦ elim (In-cons (ids (keep q es)) (rw here at m)) [
    | inl same ↦ first same
    | inr k ↦ later (kept_ids q es i k)
  ]
]

-- the ids of some of the entries are ids of entries
id_list-Known :
    (r : Request) (q : Entry → Bool) (payload : Dict) (key label : String) (is : List String)
    → id_list payload key (ids (keep q r.entries)) label ≡ ok is
    → All (IsEntryId r.entries) is
id_list-Known r q payload key label is h =
    All-impl (λ i m. kept_ids q r.entries i m)
      (id_list-allowed payload key (ids (keep q r.entries)) label is h)

pub hypothesis_status-links :
    (p : Platform) (r : Request) (payload : Dict)
    → Ensures (LinksKnown r) (hypothesis_status p r payload)
unfolding hypothesis_status
hypothesis_status-links p r payload = search (link_rules, id_list-Known) depth 40

last_kept-Known :
    (r : Request) (q : Entry → Bool)
    → All (IsEntryId r.entries) (id_link (last? (keep q r.entries)))
last_kept-Known r q = go (last? (keep q r.entries)) refl
  where
    go : (o : Option Entry) → last? (keep q r.entries) ≡ o → All (IsEntryId r.entries) (id_link o)
    go none e = all_nil
    go (some d) e =
        all_cons
          (In-map (λ (e : Entry). e.id) r.entries
            (keep-In q r.entries d (last?-In (keep q r.entries) d e)))
          all_nil

previous_closure-Known :
    (r : Request) → All (IsEntryId r.entries) (id_link (previous_closure r.entries))
unfolding previous_closure
previous_closure-Known r = last_kept-Known r _

latest_run-Known : (r : Request) → All (IsEntryId r.entries) (id_link (latest_run r.entries))
unfolding latest_run
latest_run-Known r = last_kept-Known r is_run

closed_run-links :
    (r : Request) (v : Value)
    → Ensures (λ run. All (IsEntryId r.entries) (id_link run)) (closed_run r.entries v)
unfolding closed_run
closed_run-links r null = returns _ (latest_run-Known r)
closed_run-links r _ = search link_rules depth 12

closed_run-Known :
    (r : Request) (v : Value) (run : Option Entry)
    → closed_run r.entries v ≡ ok run
    → All (IsEntryId r.entries) (id_link run)
closed_run-Known r v run h = Ensures-ok (closed_run-links r v) h

pub case_closure-links :
    (p : Platform) (r : Request) (payload : Dict)
    → Ensures (LinksKnown r) (case_closure p r payload)
unfolding case_closure
case_closure-links p r payload =
    search (link_rules, id_list-Known, closed_run-Known, previous_closure-Known, All-append) depth
      60
