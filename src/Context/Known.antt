-- ===== src/Context/Known.antt =====
-- What a resolution does not depend on, and what it shows is there.
use mathlib.Core.List.{append_assoc, append-nil}
use veyra_demo.Context.{Assertion, learned}
use veyra_demo.Context.Resolve.{Attribute, is_usable, resolve}
use veyra_demo.Prelude.{
  All, List, Option, String, [], all_cons, ap, arith, false, keep-snoc_out, refl, some, sym, ℕ,
  ◌++◌, ◌<◌, ◌∙◌, ◌∷◌, ◌≡◌,
}

-- A resolution of the context as it was known at one time for another is not changed by an
-- assertion about another machine, one recorded after that time, or one that takes effect later:
-- what is learned afterwards never rewrites what was known.
pub resolve-later_assertion :
    (digest : String → List (String × Attribute) → String) (assertions : List Assertion)
    (later_one : Assertion) (machine_id : String) (effective_at : ℕ) (known_at : Option ℕ)
    → is_usable machine_id effective_at known_at later_one ≡ false
    → resolve digest (assertions ++ later_one ∷ []) machine_id effective_at known_at
      ≡ resolve digest assertions machine_id effective_at known_at
unfolding resolve
resolve-later_assertion digest assertions later_one machine_id effective_at known_at h =
    rw (keep-snoc_out (is_usable machine_id effective_at known_at) assertions later_one h) refl

pub after_known :
    (machine_id : String) (effective_at known : ℕ) (a : Assertion)
    → known < learned a
    → is_usable machine_id effective_at (some known) a ≡ false
unfolding is_usable
after_known machine_id effective_at known a h = ground arith

-- A resolution with a cutoff is the same after any assertions that are recorded after the cutoff,
-- whatever machine and time they are about.
pub resolve-replay :
    (digest : String → List (String × Attribute) → String) (assertions added : List Assertion)
    (machine_id : String) (effective_at known : ℕ)
    → All (λ a. known < learned a) added
    → resolve digest (assertions ++ added) machine_id effective_at (some known)
      ≡ resolve digest assertions machine_id effective_at (some known)
resolve-replay digest assertions [] machine_id effective_at known h =
    ap (λ x. resolve digest x machine_id effective_at (some known)) (append-nil assertions)
resolve-replay digest assertions (a ∷ added) machine_id effective_at known (all_cons late rest) =
    ap (λ x. resolve digest x machine_id effective_at (some known))
      (sym (append_assoc assertions (a ∷ []) added))
    ∙ resolve-replay digest (assertions ++ a ∷ []) added machine_id effective_at known rest
    ∙ resolve-later_assertion digest assertions a machine_id effective_at (some known)
        (after_known machine_id effective_at known a late)
