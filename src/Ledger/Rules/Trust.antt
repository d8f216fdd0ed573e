-- ===== src/Ledger/Rules/Trust.antt =====
-- What people cannot write: the records of Veyra's connectors and agent, automatic results, and
-- proposals in Veyra's name (`trusted_automatic`).
use veyra_demo.Ledger.Accepted.{of_request}
use veyra_demo.Ledger.Entry.{Entry}
use veyra_demo.Ledger.Moves.Every.{validate-Executed}
use veyra_demo.Ledger.Payload.{choice, text_if}
use veyra_demo.Ledger.Platform.{Platform}
use veyra_demo.Ledger.Request.{Request, State, Validated, find, require_current_run, run_entry}
use veyra_demo.Ledger.Validate.{dispatch, validate, validators}
use veyra_demo.Ledger.Validate.Decisions.{
  action, actions_of, decision_proposal, hypothesis, known_parts, part, provenance_of, read_relied,
  relied_finding,
}
use veyra_demo.Ledger.Validate.Machine.{decision_check, machine_only, machine_record, run_record}
use veyra_demo.Prelude.{
  All, All-In, Bool, Bool-cases, List, Option, String, [], all_cons, all_nil, elem, elem-In, false,
  if◌then◌else◌, inl, inr, not, refl, subst, true, ℕ, ◌&&◌, ◌∙◌, ◌∷◌, ◌≡◌, ◌≢◌,
}
use veyra_demo.Python.Result.{
  Ensures, Ensures-bind, Ensures-if, Ensures-ok, ok, raise_if, raise_if-not-ok, raises, returns,
  traverse,
}
use veyra_demo.Python.Value.{
  Dict, Lacks, Value, arr, bool, dict, empty, get, get-update, item, obj, of_items, str, text?,
  truthy, update,
}

abbrev pub machine_only_kinds : List String
machine_only_kinds =
    "acquisition" ∷ "trigger_event" ∷ "agent_report" ∷ "next_action" ∷ "evidence_discovery"
    ∷ "decision_check" ∷ []

abbrev OnlyTrusted : String → Type 0
OnlyTrusted kind =
    (p : Platform) (r : Request) (d : Dict)
    → Ensures (λ _. r.trusted_automatic ≡ true) (dispatch validators kind p r d)

machine_record-OnlyTrusted :
    (kind : String) (p : Platform) (r : Request) (d : Dict)
    → Ensures (λ _. r.trusted_automatic ≡ true) (machine_record kind p r d)
unfolding machine_record
machine_record-OnlyTrusted kind p r d =
    Ensures-bind (raise_if (not r.trusted_automatic) (machine_only kind)) _
      λ _ passed. returns _ (raise_if-not-ok _ _ passed)

run_record-OnlyTrusted :
    (kind : String) (p : Platform) (r : Request) (d : Dict)
    → Ensures (λ _. r.trusted_automatic ≡ true) (run_record kind p r d)
unfolding run_record
run_record-OnlyTrusted kind p r d =
    Ensures-bind (raise_if (not r.trusted_automatic) (machine_only kind)) _ λ _ passed.
      Ensures-bind (require_current_run r (get "run_id" d)) _
        λ run _. returns _ (raise_if-not-ok _ _ passed)

decision_check-OnlyTrusted :
    (p : Platform) (r : Request) (d : Dict)
    → Ensures (λ _. r.trusted_automatic ≡ true) (decision_check p r d)
unfolding decision_check
decision_check-OnlyTrusted p r d =
    Ensures-bind (raise_if (not r.trusted_automatic) (machine_only "decision_check")) _ λ _ passed.
      Ensures-bind (run_entry r.entries (get "run_id" d)) _ λ run _.
        Ensures-bind (find r.entries (get "proposal_id" d) "decision_proposal") _
          λ proposal _. returns _ (raise_if-not-ok _ _ passed)

machine_kinds_only : All OnlyTrusted machine_only_kinds
unfolding dispatch
machine_kinds_only = all_cons (machine_record-OnlyTrusted "acquisition") (
    all_cons (machine_record-OnlyTrusted "trigger_event") (
      all_cons (run_record-OnlyTrusted "agent_report") (
        all_cons (run_record-OnlyTrusted "next_action") (
          all_cons (run_record-OnlyTrusted "evidence_discovery")
            (all_cons decision_check-OnlyTrusted all_nil)))))

validate-trusted :
    (p : Platform) (kind : String) (payload actor : Value) (es : List Entry) (state : State)
    (now : ℕ) (trusted : Bool) (v : Validated)
    → elem kind machine_only_kinds ≡ true
    → validate p kind payload actor es state now trusted ≡ ok v
    → trusted ≡ true
validate-trusted p kind payload actor es state now trusted v k h =
    of_request (λ r _. r.trusted_automatic ≡ true) kind p
      (All-In machine_kinds_only (elem-In kind machine_only_kinds k) p) payload actor es state now
      trusted v h

-- In whose name an accepted proposal stands.
abbrev proposer : Bool → Value
proposer trusted = str (if trusted then "veyra" else "engineer")

hypothesis-Lacks :
    (parts : List Value) (provenance : List String) (h : Value)
    → Ensures (Lacks "proposed_by") (hypothesis parts provenance h)
unfolding hypothesis
hypothesis-Lacks parts provenance (obj h) =
    Ensures-bind (part parts (get "part" h) "hypothesis.part") _ λ _ _.
      Ensures-bind (choice h "provenance" provenance) _
        λ _ _. Ensures-bind (text_if false h "text" 300) _ λ _ _. returns _ refl
hypothesis-Lacks parts provenance _ = raises _

guess-Lacks :
    (parts : List Value) (provenance : List String) (h : Value)
    → Ensures (Lacks "proposed_by") (if truthy h then hypothesis parts provenance h else ok empty)
guess-Lacks parts provenance h =
    Ensures-if (truthy h) _ _ (λ _. hypothesis-Lacks parts provenance h) (λ _. returns _ refl)

abbrev NamesProposer : Request → Validated → Type 0
NamesProposer r v = get "proposed_by" v.0 ≡ proposer r.trusted_automatic

abbrev first_fields :
    Value → Bool → String → String → Option String → Bool → Bool → Value → Option String → Dict
first_fields run_id by_agent action purpose check_id recommended urgent target note = dict (
    ("run_id", run_id)
    ∷ ("proposed_by", proposer by_agent)
    ∷ ("action", str action)
    ∷ ("purpose", str purpose)
    ∷ ("check_id", text? check_id)
    ∷ ("recommendation", bool (recommended && by_agent))
    ∷ ("urgent", bool urgent)
    ∷ ("target_part", target)
    ∷ ("note", text? note)
    ∷ [])

abbrev last_fields : List Value → Dict
last_fields relied = dict (
    ("relies_on", arr (of_items relied))
    ∷ (
      "boundary",
      str
          "A proposal, not a decision. Only the hypothesis and findings listed here are the engineer's statements.",
    )
    ∷ [])

decision_proposal-Names :
    (p : Platform) (r : Request) (d : Dict) → Ensures (NamesProposer r) (decision_proposal p r d)
unfolding decision_proposal
decision_proposal-Names p r d =
    let provenance = provenance_of r.trusted_automatic in
    Ensures-bind (run_entry r.entries (get "run_id" d)) _ λ run _.
      Ensures-bind (known_parts (get "belief" run.payload)) _ λ parts _.
        Ensures-bind (item "run_id" run.payload) _ λ run_id _.
          Ensures-bind (choice d "action" (actions_of r.trusted_automatic)) _ λ action _.
            Ensures-bind (choice d "purpose" _) _ λ purpose _.
              Ensures-bind (text_if false d "check_id" 80) _ λ check_id _.
                Ensures-bind (part parts (get "target_part" d) "target_part") _ λ target _.
                  Ensures-bind (text_if false d "note" 600) _ λ note _.
                    Ensures-bind
                      (if truthy (get "hypothesis" d)
                        then hypothesis parts provenance (get "hypothesis" d)
                        else ok empty)
                      _
                      λ guess guessed.
                        Ensures-bind (read_relied (get "relies_on" d)) _ λ findings _.
                          Ensures-bind (traverse (relied_finding parts provenance) findings) _
                            λ relied _.
                              let fields =
                                first_fields run_id r.trusted_automatic action purpose check_id
                                  (truthy (get "recommendation" d)) (truthy (get "urgent" d)) target
                                  note in
                              returns _ (
                                get-update "proposed_by" (update fields guess) (last_fields relied)
                                  refl
                                ∙ get-update "proposed_by" fields guess (
                                    Ensures-ok (guess-Lacks parts provenance (get "hypothesis" d))
                                      guessed))

validate-proposer :
    (p : Platform) (payload actor : Value) (es : List Entry) (state : State) (now : ℕ)
    (trusted : Bool) (v : Validated)
    → validate p "decision_proposal" payload actor es state now trusted ≡ ok v
    → get "proposed_by" v.0 ≡ proposer trusted
unfolding dispatch
validate-proposer p = of_request NamesProposer "decision_proposal" p (decision_proposal-Names p)

-- A record that only a person can have written.
pub record IsHuman (kind : String) (payload : Dict) : Type 0 where
  pub not_machine : elem kind machine_only_kinds ≡ false
  pub not_automatic : kind ≡ "check_execution" → get "status" payload ≢ str "automatic_read_only"
  pub not_veyra : kind ≡ "decision_proposal" → get "proposed_by" payload ≡ str "engineer"

-- Without the engine's trust, `validate` accepts no machine record, no automatic result and no
-- proposal in Veyra's name, whatever the payload claims.
pub validate-IsHuman :
    (p : Platform) (kind : String) (payload actor : Value) (es : List Entry) (state : State)
    (now : ℕ) (v : Validated)
    → validate p kind payload actor es state now false ≡ ok v
    → IsHuman kind v.0
validate-IsHuman p kind payload actor es state now v h = record {
  not_machine = elim (Bool-cases (elem kind machine_only_kinds)) [
    | inl machine ↦
        absurd (cc (validate-trusted p kind payload actor es state now false v machine h))
    | inr other ↦ other
  ];
  not_automatic = λ k automatic.
      let done =
        validate-Executed p payload actor es state now false v
          (subst (λ x. validate p x payload actor es state now false ≡ ok v) k h) in
      cc (done.automatic_is_trusted (cc (done.names_status, automatic)));
  not_veyra = λ k.
      validate-proposer p payload actor es state now false v
        (subst (λ x. validate p x payload actor es state now false ≡ ok v) k h);
}
