-- ===== src/Ledger/Moves/Effect.antt =====
-- What one entry does to the state of one check: a case analysis of `check_step`.
use veyra_demo.Ledger.Entry.{Entry}
use veyra_demo.Ledger.Lifecycle.{
  CheckState, answered, approved, check_step, is_listed, not_performed, rejected, sent,
}
use veyra_demo.Prelude.{
  &&_split, Bool, Bool-cases, String, arith, eq_iff, inl, inr, true, ◌&&◌, ◌==◌, ◌≡◌, ◌⊎◌,
}
use veyra_demo.Python.Value.{get, is_str, is_str-eq, str, value_eq, value_eq-str}

module _ (run check_id : String) (s : CheckState) (e : Entry) where
  pub data Effect (s' : CheckState) : Type 0 where
    unaffected : s' ≡ s → Effect s'
    by_review :
        e.kind ≡ "check_review"
        → get "run_id" e.payload ≡ str run
        → get "check_id" e.payload ≡ str check_id
        → (s' ≡ approved) ⊎ (s' ≡ rejected)
        → Effect s'
    by_request :
        e.kind ≡ "request_sent"
        → get "run_id" e.payload ≡ str run
        → is_listed check_id (get "check_ids" e.payload) ≡ true
        → s' ≡ sent
        → Effect s'
    by_execution :
        e.kind ≡ "check_execution"
        → get "run_id" e.payload ≡ str run
        → get "check_id" e.payload ≡ str check_id
        → (s' ≡ answered) ⊎ (s' ≡ not_performed)
        → Effect s'

  abbrev is_here : Bool
  is_here = value_eq (get "run_id" e.payload) (str run)

  abbrev is_review : Bool
  is_review = e.kind == "check_review" && is_str check_id (get "check_id" e.payload)

  abbrev is_request : Bool
  is_request = e.kind == "request_sent" && is_listed check_id (get "check_ids" e.payload)

  abbrev is_execution : Bool
  is_execution = e.kind == "check_execution" && is_str check_id (get "check_id" e.payload)

  Effect-here : is_here ≡ true → Effect (check_step (str run) check_id s e)
  unfolding check_step
  Effect-here here = elim (Bool-cases is_review) [
    | inl yes_review ↦
        let (k, c) = &&_split _ _ yes_review in
        by_review ((eq_iff _ _).0 k) (value_eq-str _ run here) (is_str-eq check_id _ c)
          (ground arith)
    | inr not_review ↦ elim (Bool-cases is_request) [
      | inl yes_request ↦
          let (k, c) = &&_split _ _ yes_request in
          by_request ((eq_iff _ _).0 k) (value_eq-str _ run here) c (ground arith)
      | inr not_request ↦ elim (Bool-cases is_execution) [
        | inl yes_execution ↦
            let (k, c) = &&_split _ _ yes_execution in
            by_execution ((eq_iff _ _).0 k) (value_eq-str _ run here) (is_str-eq check_id _ c)
              (ground arith)
        | inr not_execution ↦ unaffected (ground arith)
      ]
    ]
  ]

  pub effect : Effect (check_step (str run) check_id s e)
  unfolding check_step
  effect = elim (Bool-cases is_here) [
    | inl here ↦ Effect-here here
    | inr other ↦ unaffected (ground arith)
  ]
