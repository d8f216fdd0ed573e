-- ===== src/Ledger/Moves/Recorded.antt =====
-- What the three check validators record, and in which state they found the check.
use veyra_demo.Ledger.Entry.{Entry}
use veyra_demo.Ledger.Lifecycle.{check_state, may_act, transition, transition-may_act}
use veyra_demo.Ledger.Payload.{choice, text}
use veyra_demo.Ledger.Platform.{Platform}
use veyra_demo.Ledger.Request.{Request, Validated, require_current_run}
use veyra_demo.Ledger.Validate.Checks.{
  any_review, candidate, check_review, edit_fields, edited_procedure, guard_answered, is_review_of,
  standing_review, with_edit,
}
use veyra_demo.Prelude.{
  Bool, List, Option, String, [], arith, false, none, refl, some, true, ◌∷◌, ◌≡◌,
}
use veyra_demo.Python.Result.{>>=-eq-ok, Ensures, Ensures-bind, ok, returns, select}
use veyra_demo.Python.Value.{Dict, Lacks, Value, dict, get, get-update, item, str}

-- A record of one check: the payload names the run and the check, whose state allowed the kind.
pub record Recorded (kind : String) (es : List Entry) (v : Validated) : Type 0 where
  pub run_id : Value
  pub check_id : String
  pub allowed : may_act kind (check_state es run_id check_id) ≡ some true
  pub names_run : get "run_id" v.0 ≡ run_id
  pub names_check : get "check_id" v.0 ≡ str check_id

abbrev base : Value → String → String → String → Value → Dict
base run_id check_id verdict reason proposal = dict (
    ("run_id", run_id)
    ∷ ("check_id", str check_id)
    ∷ ("verdict", str verdict)
    ∷ ("reason", str reason)
    ∷ ("proposed", proposal)
    ∷ [])

with_edit-get :
    (k : String) (d : Dict) (edited : Option String)
    → Lacks k (edit_fields "")
    → get k (with_edit d edited) ≡ get k d
with_edit-get k d none h = refl
with_edit-get k d (some procedure) h = get-update k d (edit_fields procedure) (ground arith)

pub check_review-Recorded :
    (p : Platform) (r : Request) (payload : Dict)
    → Ensures (Recorded "check_review" r.entries) (check_review p r payload)
unfolding check_review
check_review-Recorded p r payload =
    Ensures-bind (require_current_run r (get "run_id" payload)) _ λ run _.
      Ensures-bind (text payload "check_id" 4000) _ λ check_id _.
        Ensures-bind (item "run_id" run.payload) _ λ run_id _.
          Ensures-bind (transition "check_review" r.entries run_id check_id) _ λ _ passed.
            Ensures-bind (candidate run check_id) _ λ proposal _.
              Ensures-bind (choice payload "verdict" _) _ λ verdict _.
                Ensures-bind (text payload "reason" 4000) _ λ reason _.
                  Ensures-bind (edited_procedure payload verdict) _ λ edited _. returns _ (record {
                    run_id = run_id;
                    check_id = check_id;
                    allowed = transition-may_act "check_review" r.entries run_id check_id passed;
                    names_run =
                        with_edit-get "run_id" (base run_id check_id verdict reason proposal) edited
                          refl;
                    names_check =
                        with_edit-get "check_id" (base run_id check_id verdict reason proposal)
                          edited refl;
                  })

-- Without a review no review stands.
no_review :
    (run_id : Value) (check_id : String) (es : List Entry)
    → any_review run_id check_id es ≡ ok false
    → select (is_review_of run_id check_id) es ≡ ok []
unfolding any_review select
no_review run_id check_id [] h = refl
no_review run_id check_id (e ∷ es) h = ground (arith, no_review run_id check_id es)

no_standing_review :
    (run_id : Value) (check_id m : String) (es : List Entry) {review : Entry}
    → any_review run_id check_id es ≡ ok false
    → standing_review run_id check_id es m ≡ ok review
    → ⊥
unfolding standing_review
no_standing_review run_id check_id m es h g = ground (arith, no_review run_id check_id es h)

-- an accepted execution passed the transition: its check has a review
pub execution-allowed :
    (r : Request) (run_id : Value) (check_id m : String) (reviewed : Bool) {u : Unit {0}}
    {review : Entry}
    → any_review run_id check_id r.entries ≡ ok reviewed
    → guard_answered reviewed r run_id check_id ≡ ok u
    → standing_review run_id check_id r.entries m ≡ ok review
    → may_act "check_execution" (check_state r.entries run_id check_id) ≡ some true
unfolding guard_answered
execution-allowed r run_id check_id m false h g k =
    absurd (no_standing_review run_id check_id m r.entries h k)
execution-allowed r run_id check_id m true h g k =
    let (_, passed, _) = >>=-eq-ok (transition "check_execution" r.entries run_id check_id) _ g in
    transition-may_act "check_execution" r.entries run_id check_id passed
