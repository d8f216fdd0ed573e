-- ===== src/Ledger/Rules/Conclude.antt =====
-- What a decision and a conclusion must rest on.
use veyra_demo.Ledger.Accepted.{of_request}
use veyra_demo.Ledger.Entry.{Entry}
use veyra_demo.Ledger.Payload.{text, text_if}
use veyra_demo.Ledger.Platform.{Platform}
use veyra_demo.Ledger.Request.{Request, State, Validated, find, require_current_run}
use veyra_demo.Ledger.Validate.{dispatch, validate}
use veyra_demo.Ledger.Validate.Decisions.{
  decision, decision_basis, follows_proposal, follows_recommendation, is_checked_recommendation,
  proposal_check, read_options,
}
use veyra_demo.Prelude.{
  Bool, In, List, String, [], any, elem, elem-In, false, not, refl, subst, ℕ, ◌∷◌, ◌≡◌,
}
use veyra_demo.Python.Result.{
  >>=-eq-ok, Ensures, Ensures-bind, Ensures-if, Ensures-ok, ok, or_raise, raise_if, raise_if-not-ok,
  raise_if-ok, returns,
}
use veyra_demo.Python.Text.{is_blank}
use veyra_demo.Python.Value.{
  Dict, Lacks, Value, all_texts?, arr, cons, dict, get, get-update, item, nil, str, texts, truthy,
}

-- The chosen option is one of those that were weighed, and each of them says something.
pub record Chosen (v : Validated) : Type 0 where
  pub options : List String
  pub chosen : String
  pub names_options : get "options_considered" v.0 ≡ texts options
  pub names_chosen : get "chosen_option" v.0 ≡ str chosen
  pub weighed : In chosen options
  pub meaningful : any is_blank options ≡ false

read_options-meaningful :
    (v : Value) (options : List String) → read_options v ≡ ok options → any is_blank options ≡ false
unfolding read_options
read_options-meaningful (arr (cons v vs)) options h =
    let (found, _, h1) = >>=-eq-ok (or_raise (all_texts? (cons v vs)) _) _ h in
    let (_, checked, h2) = >>=-eq-ok (raise_if (any is_blank found) _) _ h1 in
    let same : found ≡ options = cc h2 in
    subst (λ x. any is_blank x ≡ false) same (raise_if-ok _ _ checked)
read_options-meaningful (arr nil) options h = cc
read_options-meaningful _ options h = cc

abbrev decision_fields : Value → List String → String → String → Value → Value → Dict
decision_fields run_id options chosen rationale belief readiness = dict (
    ("run_id", run_id)
    ∷ ("options_considered", texts options)
    ∷ ("chosen_option", str chosen)
    ∷ ("rationale", str rationale)
    ∷ ("belief_at_decision", belief)
    ∷ ("dispatch_readiness_at_decision", readiness)
    ∷ ("boundary", str "Human decision. Not an executed action and not a verified result.")
    ∷ [])

-- What a decision adds leaves the options and the choice alone.
abbrev Adds : Validated → Type 0
Adds v = Lacks "options_considered" v.0 × Lacks "chosen_option" v.0

follows_proposal-Adds : (r : Request) (d : Dict) → Ensures Adds (follows_proposal r d)
unfolding follows_proposal
follows_proposal-Adds r d =
    Ensures-bind (find r.entries (get "proposal_id" d) "decision_proposal") _ λ proposal _.
      Ensures-bind (proposal_check r d proposal) _ λ checked _.
        Ensures-bind (text_if false d "proceed_reason" 600) _ λ reason _. returns _ (refl, refl)

follows_recommendation-Adds : (r : Request) (d : Dict) → Ensures Adds (follows_recommendation r d)
unfolding follows_recommendation
follows_recommendation-Adds r d =
    Ensures-bind (find r.entries (get "veyra_check_id" d) "next_action") _ λ checked _.
      Ensures-bind (is_checked_recommendation checked.payload) _ λ recommended _.
        Ensures-bind (raise_if (not recommended) _) _ λ _ _.
          Ensures-bind (text_if false d "proceed_reason" 600) _ λ reason _. returns _ (refl, refl)

decision_basis-Adds : (r : Request) (d : Dict) → Ensures Adds (decision_basis r d)
unfolding decision_basis
decision_basis-Adds r d =
    Ensures-if (truthy (get "proposal_id" d)) _ _ (λ _. follows_proposal-Adds r d)
      (λ _.
        Ensures-if (truthy (get "veyra_check_id" d)) _ _ (λ _. follows_recommendation-Adds r d)
          (λ _. returns _ (refl, refl)))

decision-Chosen : (p : Platform) (r : Request) (d : Dict) → Ensures Chosen (decision p r d)
unfolding decision
decision-Chosen p r d = Ensures-bind (require_current_run r (get "run_id" d)) _ λ run _.
    Ensures-bind (read_options (get "options_considered" d)) _ λ options weighed.
      Ensures-bind (text d "chosen_option" 4000) _ λ chosen _.
        Ensures-bind (raise_if (not (elem chosen options)) _) _ λ _ offered.
          Ensures-bind (item "run_id" run.payload) _ λ run_id _.
            Ensures-bind (text d "rationale" 4000) _ λ rationale _.
              Ensures-bind (item "belief" run.payload) _ λ belief _.
                Ensures-bind (decision_basis r d) _ λ basis based.
                  let fields =
                    decision_fields run_id options chosen rationale belief
                      (get "dispatch_status" run.payload) in
                  let (no_options, no_choice) = Ensures-ok (decision_basis-Adds r d) based in
                  returns _ (record {
                    options = options;
                    chosen = chosen;
                    names_options = get-update "options_considered" fields basis.0 no_options;
                    names_chosen = get-update "chosen_option" fields basis.0 no_choice;
                    weighed = elem-In chosen options (raise_if-not-ok _ _ offered);
                    meaningful =
                        read_options-meaningful (get "options_considered" d) options weighed;
                  })

-- An accepted decision chooses one of the options that it lists, none of which is blank.
pub validate-decision :
    (p : Platform) (payload actor : Value) (es : List Entry) (state : State) (now : ℕ)
    (trusted : Bool) (v : Validated)
    → validate p "decision" payload actor es state now trusted ≡ ok v
    → Chosen v
unfolding dispatch
validate-decision p = of_request (λ _. Chosen) "decision" p (decision-Chosen p)
