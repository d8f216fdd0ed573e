-- ===== src/Engine/Outcomes.antt =====
-- The named outcomes of the checks: `SPLITS`, `ALIASES` and `outcome_of` of
-- backend/app/engine/next_action.py.
pub mod Names
use veyra_demo.Prelude.{List, Option, String, [], if◌then◌else◌, map, none, some, ◌++◌, ◌==◌, ◌∷◌}

-- What one outcome of a check says about the parts of the machine.
pub record Outcome : Type 0 where
  pub label : String
  pub supports : List String
  pub weakens : List String

abbrev outcome : String → List String → List String → Outcome
outcome l s w = record { label = l; supports = s; weakens = w }

-- `SPLITS`
abbrev pub splits : List (String × List (String × Outcome))
splits =
    (
      "CHK-CONTROLLER-LOGS",
      (
        "controller_action_first",
        outcome
            "The controller recorded a fault, protective stop, mode change or output limit before the problem started"
            ("control_suite" ∷ []) ("network" ∷ []),
      )
          ∷ (
            "link_loss_first",
            outcome "The controller recorded a lost operator link before the problem started"
                ("network" ∷ []) ("control_suite" ∷ []),
          )
          ∷ (
            "nothing_before",
            outcome
                "Nothing relevant recorded before the problem started (the log covers the window)"
                [] ("control_suite" ∷ "network" ∷ []),
          )
          ∷ [],
    )
    ∷ (
      "CHK-DRIVE-LOGS",
      (
        "drive_hw_fault",
        outcome
            "The drive recorded a hardware fault (temperature, encoder or power) before the problem started"
            ("vehicle_interface" ∷ []) [],
      )
          ∷ (
            "drive_no_hw_fault",
            outcome
                "The drive recorded only the tracking error, no hardware fault (the log covers the window)"
                [] ("vehicle_interface" ∷ []),
          )
          ∷ [],
    )
    ∷ (
      "CHK-NETWORK-LOGS",
      ("network_event", outcome "Link drops or handovers during the problem" ("network" ∷ []) [])
          ∷ (
            "no_event",
            outcome "No link events during the problem (logs cover the whole window)" []
                ("network" ∷ []),
          )
          ∷ [],
    )
    ∷ (
      "CHK-PROBE-PATH",
      ("same_path", outcome "The probe uses the command path" ("network" ∷ []) [])
          ∷ ("different_path", outcome "The probe uses a different path" [] ("network" ∷ []))
          ∷ [],
    )
    ∷ (
      "CHK-IO-BASELINE",
      (
        "unchanged",
        outcome "The machine responds to received commands as before" []
            ("vehicle_interface" ∷ "vehicle_body" ∷ []),
      )
          ∷ (
            "changed",
            outcome "The machine responds differently than before"
                ("vehicle_interface" ∷ "vehicle_body" ∷ []) [],
          )
          ∷ [],
    )
    ∷ []

-- `ALIASES`: outcome names that older records use.
abbrev pub aliases : List (String × List (String × String))
aliases =
    (
      "CHK-CONTROLLER-LOGS",
      ("application_fault", "controller_action_first")
          ∷ ("external_trigger", "link_loss_first")
          ∷ [],
    )
    ∷ []

-- `table.get(key)`, and `table.get(key, {})` of a table of tables
abbrev pub find_key {ℓ} : {A : Type ℓ} → String → List (String × A) → Option A
find_key k [] = none
find_key k ((j, v) ∷ t) = if j == k then some v else find_key k t

abbrev pub find_table {ℓ} :
    {A : Type ℓ} → String → List (String × List (String × A)) → List (String × A)
find_table k t = elim (find_key k t) [ none ↦ [] | some v ↦ v ]

unfoldable pub outcome_of : String → Option String → Option Outcome
outcome_of check_id key =
    let given : String = elim key [ none ↦ "" | some k ↦ k ] in
    let name : String = elim (find_key given (find_table check_id aliases)) [
      | none ↦ given
      | some k ↦ k
    ] in
    find_key name (find_table check_id splits)

-- `tuple(SPLITS.get(check_id, {})) + tuple(ALIASES.get(check_id, {}))`
unfoldable pub outcome_names : String → List String
outcome_names check_id =
    map (λ r. r.0) (find_table check_id splits) ++ map (λ r. r.0) (find_table check_id aliases)
