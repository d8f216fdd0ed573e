-- ===== src/Context.antt =====
-- The machine context of backend/app/context/model.py: assertions about a machine, and the attributes
-- that they may be about.
pub mod Resolve
pub mod Compare
pub mod Known
pub mod Sound
pub mod Validate
pub mod Agree
pub mod Accept
use veyra_demo.Ledger.Platform.{Moment, instant}
use veyra_demo.Prelude.{Bool, List, Option, String, [], false, map, none, some, true, ℕ, ◌==◌, ◌∷◌}

-- `STATUSES`
pub data Status : Type 0 where
  reported engineer_confirmed unknown_value retracted : Status

-- `Assertion`, with its two times as the moments that their texts stand for
pub record Assertion : Type 0 where
  pub id : String
  pub machine_id : String
  pub key : String
  pub value : Option String
  pub status : Status
  pub source : String
  pub actor : String
  pub effective_from : Moment
  pub recorded_at : Moment
  pub evidence : List String
  pub note : String

-- `AttributeDef`; no allowed value means any
pub record AttributeDef : Type 0 where
  pub key : String
  pub category : String
  pub description : String
  pub allowed : List String
  pub dispatch_relevant : Bool

abbrev attribute_def : String → String → String → List String → Bool → AttributeDef
attribute_def k c d allowed relevant = record {
  key = k;
  category = c;
  description = d;
  allowed = allowed;
  dispatch_relevant = relevant;
}

-- `_DEFS`
abbrev pub definitions : List AttributeDef
definitions =
    attribute_def "machine_class" "identity"
      "Machine type; selects the investigation profile (e.g. remote_excavator, fixed_wing_uav, agricultural_robot)"
      ([]) true
    ∷ attribute_def "oem" "identity" "Machine manufacturer" ([]) true
    ∷ attribute_def "model" "identity" "Machine model" ([]) true
    ∷ attribute_def "serial_number" "identity" "Machine serial number" ([]) false
    ∷ attribute_def "kit_version" "retrofit" "Remote-control retrofit kit version" ([]) true
    ∷ attribute_def "harness_revision" "retrofit" "Wiring harness revision" ([]) true
    ∷ attribute_def "control_version" "software"
        "Remote-control application/controller software version" ([]) false
    ∷ attribute_def "firmware_version" "software" "Vehicle-side controller firmware version" ([])
        false
    ∷ attribute_def "vehicle_interface" "interface"
        "How the kit commands the machine (e.g. CAN bridge, hydraulic pilot valves)" ([]) true
    ∷ attribute_def "network_path" "network"
        "Network between console and machine (e.g. private LTE APN, Wi-Fi mesh)" ([]) false
    ∷ attribute_def "modem_firmware" "network" "Vehicle modem/router firmware" ([]) false
    ∷ attribute_def "measurement_endpoints" "measurement"
        "What each network probe actually measures, end to end" ([]) false
    ∷ attribute_def "clock_sync_method" "measurement"
        "How console and vehicle clocks are synchronized (e.g. NTP, PTP, GPS, none)" ([]) false
    ∷ attribute_def "clock_offset_bound_ms" "measurement"
        "Documented maximum offset between console and vehicle clocks, in ms" ([]) false
    ∷ attribute_def "site" "site" "Deployment site" ([]) true
    ∷ attribute_def "environment" "site" "Environment (e.g. open-pit mine, port, tunnel)" ([]) false
    ∷ attribute_def "operating_conditions" "operations"
        "Operating conditions relevant to the fault (load, temperature, task)" ([]) false
    ∷ attribute_def "last_service" "maintenance" "Most recent service and what was done" ([]) false
    ∷ attribute_def "remote_access" "access" "Authorized remote access level"
        ("unknown" ∷ "not_authorized" ∷ "read_only_authorized" ∷ []) true
    ∷ attribute_def "available_tools" "access" "Diagnostic tools available at site or remotely" ([])
        true
    ∷ []

-- the keys of `SCHEMA`
abbrev pub schema_keys : List String
schema_keys = map (λ d. d.key) definitions

-- the keys that must match, for each purpose of `COMPARABILITY_RULES`
abbrev pub comparability_rules : List (String × List String)
comparability_rules =
    (
      "remote_response_delay.baseline",
      ("oem" ∷ "model" ∷ "kit_version" ∷ "control_version" ∷ "vehicle_interface" ∷ "network_path"
          ∷ "measurement_endpoints" ∷ []),
    )
    ∷ (
      "remote_response_delay.precedent",
      ("oem" ∷ "model" ∷ "kit_version" ∷ "control_version" ∷ "vehicle_interface" ∷ "network_path"
          ∷ "measurement_endpoints" ∷ "environment" ∷ "operating_conditions" ∷ []),
    )
    ∷ (
      "input_response.baseline",
      ("oem" ∷ "model" ∷ "kit_version" ∷ "control_version" ∷ "firmware_version"
          ∷ "vehicle_interface" ∷ []),
    )
    ∷ []

-- `_epoch(a.effective_from)`, `_epoch(a.recorded_at)`
abbrev pub effective : Assertion → ℕ
effective a = instant a.effective_from

abbrev pub learned : Assertion → ℕ
learned a = instant a.recorded_at

abbrev pub is_confirmed : Status → Bool
is_confirmed engineer_confirmed = true
is_confirmed _ = false

abbrev pub is_reported : Status → Bool
is_reported reported = true
is_reported _ = false

-- `status in (REPORTED, CONFIRMED)`
abbrev pub carries_value : Status → Bool
carries_value reported = true
carries_value engineer_confirmed = true
carries_value unknown_value = false
carries_value retracted = false

-- `v == w` for texts or None
abbrev pub same_value : Option String → Option String → Bool
same_value none none = true
same_value none (some t) = false
same_value (some s) none = false
same_value (some s) (some t) = s == t
