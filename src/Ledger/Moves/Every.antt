-- ===== src/Ledger/Moves/Every.antt =====
-- Every accepted entry moves every check along the lifecycle, or leaves it alone.
use veyra_demo.Ledger.Accepted.{of_request}
use veyra_demo.Ledger.Entry.{Entry}
use veyra_demo.Ledger.Lifecycle.{CheckState, check_state, check_step, is_listed, may_act}
use veyra_demo.Ledger.Moves.{
  CheckMove, answer, approve, execution-IsAwaited, reject, request-IsApproved, review-IsOpen, send,
  skip,
}
use veyra_demo.Ledger.Moves.Effect.{Effect, by_execution, by_request, by_review, effect, unaffected}
use veyra_demo.Ledger.Moves.Execution.{
  Executed, Requested, check_execution-Executed, request_sent-Requested,
}
use veyra_demo.Ledger.Moves.Recorded.{Recorded, check_review-Recorded}
use veyra_demo.Ledger.Platform.{Platform}
use veyra_demo.Ledger.Request.{State, Validated}
use veyra_demo.Ledger.Validate.{dispatch, validate}
use veyra_demo.Prelude.{
  All-In, Bool, Bool-cases, In, List, String, [], ap, arith, eq_iff, first, inl, inr, later, some,
  subst, subst₂, sym, true, ℕ, ◌==◌, ◌∙◌, ◌∷◌, ◌≡◌, ◌⊎◌,
}
use veyra_demo.Python.Result.{ok}
use veyra_demo.Python.Value.{Value, get, str, texts}

-- The effect of an entry on the state of one check of one run.
abbrev pub MovesOrStays : CheckState → CheckState → Type 0
MovesOrStays s s' = (s' ≡ s) ⊎ CheckMove s s'

pub validate-Recorded :
    (p : Platform) (payload actor : Value) (es : List Entry) (state : State) (now : ℕ)
    (trusted : Bool) (v : Validated)
    → validate p "check_review" payload actor es state now trusted ≡ ok v
    → Recorded "check_review" es v
unfolding dispatch
validate-Recorded p =
    of_request (λ r v. Recorded "check_review" r.entries v) "check_review" p
      (check_review-Recorded p)

-- An accepted execution names the run and the check, whose state in that run awaits a result, and
-- its status is "automatic_read_only" only on the engine's own path.
pub validate-Executed :
    (p : Platform) (payload actor : Value) (es : List Entry) (state : State) (now : ℕ)
    (trusted : Bool) (v : Validated)
    → validate p "check_execution" payload actor es state now trusted ≡ ok v
    → Executed es trusted v
unfolding dispatch
validate-Executed p =
    of_request (λ r v. Executed r.entries r.trusted_automatic v) "check_execution" p
      (check_execution-Executed p)

pub validate-Requested :
    (p : Platform) (payload actor : Value) (es : List Entry) (state : State) (now : ℕ)
    (trusted : Bool) (v : Validated)
    → validate p "request_sent" payload actor es state now trusted ≡ ok v
    → Requested es v
unfolding dispatch
validate-Requested p =
    of_request (λ r v. Requested r.entries v) "request_sent" p (request_sent-Requested p)

-- the state that a record found, for the check that the entry names
found_state :
    {kind : String} (es : List Entry) (v : Validated) (rec : Recorded kind es v)
    (run check_id : String)
    → get "run_id" v.0 ≡ str run
    → get "check_id" v.0 ≡ str check_id
    → may_act kind (check_state es (str run) check_id) ≡ some true
found_state {kind} es v rec run check_id r c =
    let same_run : rec.run_id ≡ str run = sym rec.names_run ∙ r in
    let same_check : rec.check_id ≡ check_id = cc (rec.names_check, c) in
    subst₂ (λ a b. may_act kind (check_state es a b) ≡ some true) same_run same_check rec.allowed

listed-In : (c : String) (cs : List String) → is_listed c (texts cs) ≡ true → In c cs
listed-In c [] h = cc
listed-In c (d ∷ cs) h = elim (Bool-cases (d == c)) [
  | inl e ↦ first (sym ((eq_iff d c).0 e))
  | inr e ↦ later (listed-In c cs (ground arith))
]

-- Whatever `validate` accepts, from people or from the engine, moves each check of each run along
-- an arrow of the lifecycle, or leaves its state as it was.
pub validate-MovesOrStays :
    (p : Platform) (kind : String) (payload actor : Value) (es : List Entry) (state : State)
    (now : ℕ) (trusted : Bool) (v : Validated)
    → validate p kind payload actor es state now trusted ≡ ok v
    → (e : Entry) → e.kind ≡ kind
    → e.payload ≡ v.0
    → (run check_id : String)
    → let s = check_state es (str run) check_id in
      MovesOrStays s (check_step (str run) check_id s e)
validate-MovesOrStays p kind payload actor es state now trusted v h e same_kind same_payload run
      check_id =
    moves (effect run check_id (check_state es (str run) check_id) e)
  where
    as_kind : {k : String} → e.kind ≡ k → validate p k payload actor es state now trusted ≡ ok v
    as_kind is_k =
        subst (λ k. validate p k payload actor es state now trusted ≡ ok v) (sym same_kind ∙ is_k) h

    payload_get : (k : String) {w : Value} → get k e.payload ≡ w → get k v.0 ≡ w
    payload_get k {w} g = subst (λ d. get k d ≡ w) same_payload g

    moves :
        {s' : CheckState}
        → Effect run check_id (check_state es (str run) check_id) e s'
        → MovesOrStays (check_state es (str run) check_id) s'
    moves (unaffected same) = inl same
    moves (by_review k r c to) =
        let open' = review-IsOpen _ (
          found_state es v (validate-Recorded p payload actor es state now trusted v (as_kind k))
            run check_id (payload_get "run_id" r) (payload_get "check_id" c)) in
        inr (elim to [
          | inl a ↦ subst (CheckMove _) (sym a) (approve open')
          | inr a ↦ subst (CheckMove _) (sym a) (reject open')
        ])
    moves (by_request k r c to) =
        let rq = validate-Requested p payload actor es state now trusted v (as_kind k) in
        let same_run : rq.run_id ≡ str run = sym rq.names_run ∙ payload_get "run_id" r in
        let listed : is_listed check_id (texts rq.check_ids) ≡ true =
          subst (λ w. is_listed check_id w ≡ true)
            (ap (get "check_ids") same_payload ∙ rq.names_checks) c in
        let allowed = All-In rq.allowed (listed-In check_id rq.check_ids listed) in
        inr (
          subst (CheckMove _) (sym to) (
            send (
              request-IsApproved _ (
                subst (λ a. may_act "request_sent" (check_state es a check_id) ≡ some true) same_run
                  allowed))))
    moves (by_execution k r c to) =
        let awaited = execution-IsAwaited _ (
          found_state es v
            (validate-Executed p payload actor es state now trusted v (as_kind k)).recorded run
            check_id (payload_get "run_id" r) (payload_get "check_id" c)) in
        inr (elim to [
          | inl a ↦ subst (CheckMove _) (sym a) (answer awaited)
          | inr a ↦ subst (CheckMove _) (sym a) (skip awaited)
        ])
