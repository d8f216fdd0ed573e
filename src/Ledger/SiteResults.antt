-- ===== src/Ledger/SiteResults.antt =====
-- What the site reported for each check: `site_results` of backend/app/engine/next_action.py.
pub mod Latest
use veyra_demo.Engine.Outcomes.{find_key}
use veyra_demo.Ledger.Entry.{Entry}
use veyra_demo.Prelude.{
  Bool, List, Option, String, [], false, if◌then◌else◌, none, not, some, ◌==◌, ◌||◌, ◌∷◌,
}
use veyra_demo.Python.Value.{Dict, Value, get, is_str, str, value_eq}

-- One value of the dictionary: the payload with the entry's id, and whether it belongs to this run.
pub record SiteResult : Type 0 where
  pub payload : Dict
  pub entry_id : String
  pub this_run : Bool

abbrev pub site_result : Entry → Bool → SiteResult
site_result e here = record { payload = e.payload; entry_id = e.id; this_run = here }

-- `out[check_id] = …`
abbrev pub put {ℓ} : {A : Type ℓ} → String → A → List (String × A) → List (String × A)
put k a [] = (k, a) ∷ []
put k a ((j, b) ∷ t) = if j == k then (j, a) ∷ t else (j, b) ∷ put k a t

abbrev pub of_this_run : Option SiteResult → Bool
of_this_run none = false
of_this_run (some s) = s.this_run

abbrev pub is_here : Value → Entry → Bool
is_here run_id e = value_eq (get "run_id" e.payload) run_id

-- One round of the loop; the ledger records a text as the check of an execution.
unfoldable pub site_step : Value → List (String × SiteResult) → Entry → List (String × SiteResult)
site_step run_id out e =
    if not (e.kind == "check_execution") then out else elim (get "check_id" e.payload) [
      | str check_id ↦
          if is_here run_id e || is_str "performed" (get "status" e.payload)
          then (if is_here run_id e || not (of_this_run (find_key check_id out))
              then put check_id (site_result e (is_here run_id e)) out
              else out)
          else out
      | _ ↦ out
    ]

unfoldable pub site_results_from :
    Value → List (String × SiteResult) → List Entry → List (String × SiteResult)
site_results_from run_id out [] = out
site_results_from run_id out (e ∷ es) = site_results_from run_id (site_step run_id out e) es

-- `site_results(ledger, run_id)`
unfoldable pub site_results : List Entry → Value → List (String × SiteResult)
unfolding site_results_from
site_results ledger run_id = site_results_from run_id [] ledger
