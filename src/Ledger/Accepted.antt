-- ===== src/Ledger/Accepted.antt =====
-- From a branch of `validate` to `validate`: what the validator of one kind ensures.
use veyra_demo.Ledger.Entry.{Entry}
use veyra_demo.Ledger.Platform.{Platform}
use veyra_demo.Ledger.Request.{Request, State, Validated, actor_text, request}
use veyra_demo.Ledger.Validate.{dispatch, require_actor, validate, validators}
use veyra_demo.Prelude.{Bool, List, String, arith, false, subst, ℕ, ◌≡◌}
use veyra_demo.Python.Result.{>>=-eq-ok, Ensures, Ensures-ok, ok}
use veyra_demo.Python.Text.{is_blank}
use veyra_demo.Python.Value.{Dict, Value, obj, str}

require_actor-text :
    (actor : Value) (name : String) → require_actor actor ≡ ok name → name ≡ actor_text actor
unfolding require_actor
require_actor-text (str s) name h = ground arith
require_actor-text _ name h = cc

pub of_request :
    (P : Request → Validated → Type 0) (kind : String) (p : Platform)
    → ((r : Request) (d : Dict) → Ensures (P r) (dispatch validators kind p r d))
    → (payload actor : Value) (es : List Entry) (state : State) (now : ℕ) (trusted : Bool)
      (v : Validated)
    → validate p kind payload actor es state now trusted ≡ ok v
    → P (request actor es state now trusted) v
unfolding validate
of_request P kind p ensured (obj d) actor es state now trusted v h =
    let (name, named, h') = >>=-eq-ok (require_actor actor) _ h in
    subst
      (λ n.
        P
          (record {
            actor = n;
            entries = es;
            state = state;
            now = now;
            trusted_automatic = trusted;
          })
          v)
      (require_actor-text actor name named) (Ensures-ok (ensured _ d) h')
of_request P kind p ensured _ actor es state now trusted v h = ground arith

require_actor-named :
    (actor : Value) (name : String)
    → require_actor actor ≡ ok name
    → is_blank (actor_text actor) ≡ false
unfolding require_actor
require_actor-named (str s) name h = ground arith
require_actor-named _ name h = cc

-- Whoever writes an accepted entry has a name that is not blank.
pub validate-actor :
    (p : Platform) (kind : String) (payload actor : Value) (es : List Entry) (state : State)
    (now : ℕ) (trusted : Bool) (v : Validated)
    → validate p kind payload actor es state now trusted ≡ ok v
    → is_blank (actor_text actor) ≡ false
unfolding validate
validate-actor p kind (obj d) actor es state now trusted v h =
    let (name, named, _) = >>=-eq-ok (require_actor actor) _ h in
    require_actor-named actor name named
validate-actor p kind _ actor es state now trusted v h = cc
