-- ===== src/Ledger/Rules/Review.antt =====
-- Four eyes: who may review what (`outcome_review` and `normal_review`).
use veyra_demo.Ledger.Accepted.{of_request}
use veyra_demo.Ledger.Entry.{Entry}
use veyra_demo.Ledger.Links.{find-In}
use veyra_demo.Ledger.Payload.{choice, text}
use veyra_demo.Ledger.Platform.{Platform}
use veyra_demo.Ledger.Request.{Request, State, Validated, find, request}
use veyra_demo.Ledger.Validate.{dispatch, validate}
use veyra_demo.Ledger.Validate.Notes.{normal_review}
use veyra_demo.Ledger.Validate.Outcomes.{outcome_review, same_person}
use veyra_demo.Prelude.{
  &&_split, Bool, Bool-cases, In, List, String, [], eq_iff, false, inl, inr, refl, subst, ℕ, ◌&&◌,
  ◌==◌, ◌∷◌, ◌≡◌,
}
use veyra_demo.Python.Result.{Ensures, Ensures-bind, ok, raise_if, raise_if-ok, returns}
use veyra_demo.Python.Value.{Dict, Value, get, is_str}

-- The record links an entry of the given kind that someone else wrote: the two names differ also
-- without their outer white space and case.
pub record ByAnother (p : Platform) (kind : String) (r : Request) (v : Validated) : Type 0 where
  pub reviewed : Entry
  pub stored : In reviewed r.entries
  pub of_kind : reviewed.kind ≡ kind
  pub linked : v.1 ≡ reviewed.id ∷ []
  pub another : same_person p reviewed.actor r.actor ≡ false

pub find-kind :
    (es : List Entry) (v : Value) (kind : String) (e : Entry)
    → find es v kind ≡ ok e
    → e.kind ≡ kind
unfolding find
find-kind [] v kind e h = cc
find-kind (d ∷ es) v kind e h = elim (Bool-cases (is_str d.id v && d.kind == kind)) [
  | inl here ↦
      let same : d ≡ e = cc (rw here at h) in
      subst (λ (x : Entry). x.kind ≡ kind) same ((eq_iff _ _).0 (&&_split _ _ here).1)
  | inr other ↦ find-kind es v kind e (rw other at h)
]

outcome_review-ByAnother :
    (p : Platform) (r : Request) (d : Dict)
    → Ensures (ByAnother p "outcome" r) (outcome_review p r d)
unfolding outcome_review
outcome_review-ByAnother p r d =
    Ensures-bind (find r.entries (get "outcome_id" d) "outcome") _ λ reviewed found.
      Ensures-bind (raise_if (same_person p reviewed.actor r.actor) _) _ λ _ differs.
        Ensures-bind (choice d "verdict" _) _ λ verdict _.
          Ensures-bind (text d "reason" 4000) _ λ reason _. returns _ (record {
            reviewed = reviewed;
            stored = find-In r.entries (get "outcome_id" d) "outcome" reviewed found;
            of_kind = find-kind r.entries (get "outcome_id" d) "outcome" reviewed found;
            linked = refl;
            another = raise_if-ok _ _ differs;
          })

normal_review-ByAnother :
    (p : Platform) (r : Request) (d : Dict)
    → Ensures (ByAnother p "normal_proposal" r) (normal_review p r d)
unfolding normal_review
normal_review-ByAnother p r d =
    Ensures-bind (find r.entries (get "proposal_id" d) "normal_proposal") _ λ reviewed found.
      Ensures-bind (raise_if (same_person p reviewed.actor r.actor) _) _ λ _ differs.
        Ensures-bind (choice d "verdict" _) _ λ verdict _.
          Ensures-bind (text d "reason" 4000) _ λ reason _. returns _ (record {
            reviewed = reviewed;
            stored = find-In r.entries (get "proposal_id" d) "normal_proposal" reviewed found;
            of_kind = find-kind r.entries (get "proposal_id" d) "normal_proposal" reviewed found;
            linked = refl;
            another = raise_if-ok _ _ differs;
          })

-- An outcome is reviewed by a person other than the one who recorded it, from people and from the
-- engine alike.
pub validate-outcome_review :
    (p : Platform) (payload actor : Value) (es : List Entry) (state : State) (now : ℕ)
    (trusted : Bool) (v : Validated)
    → validate p "outcome_review" payload actor es state now trusted ≡ ok v
    → ByAnother p "outcome" (request actor es state now trusted) v
unfolding dispatch
validate-outcome_review p =
    of_request (ByAnother p "outcome") "outcome_review" p (outcome_review-ByAnother p)

-- A proposed normal is reviewed by a person other than the one who proposed it.
pub validate-normal_review :
    (p : Platform) (payload actor : Value) (es : List Entry) (state : State) (now : ℕ)
    (trusted : Bool) (v : Validated)
    → validate p "normal_review" payload actor es state now trusted ≡ ok v
    → ByAnother p "normal_proposal" (request actor es state now trusted) v
unfolding dispatch
validate-normal_review p =
    of_request (ByAnother p "normal_proposal") "normal_review" p (normal_review-ByAnother p)
