-- ===== src/Advice/Catalog.antt =====
-- The catalog of checks: `CATALOG` of backend/app/engine/checks.py.
-- A check of the catalog, with what it needs; an empty list or `false` where the catalog has no such key.
use veyra_demo.Prelude.{Bool, List, Option, String, [], false, none, some, true, ◌∷◌}

pub record CatalogCheck : Type 0 where
  pub id : String
  pub question : String
  pub objective : String
  pub mode : String
  pub tool : Option String
  pub domains : List String
  pub disruption : String
  pub who : String
  pub tools : List String
  pub requires_signals : List String
  pub requires_context : List String
  pub requires_authorization : Bool
  pub why : String
  pub expected : List (String × String)

-- what a check has where the catalog has no such key
abbrev unconditional : CatalogCheck
unconditional = record {
  id = "";
  question = "";
  objective = "";
  mode = "";
  tool = none;
  domains = [];
  disruption = "";
  who = "";
  tools = [];
  requires_signals = [];
  requires_context = [];
  requires_authorization = false;
  why = "";
  expected = [];
}

abbrev every_domain : List String
every_domain = "network" ∷ "control_suite" ∷ "vehicle_interface" ∷ "vehicle_body" ∷ []

-- `CATALOG`
abbrev pub catalog : List CatalogCheck
catalog =
    record unconditional {
      id = "CHK-SOURCE-ROWS";
      question = "Inspect the original records inside the symptom window";
      objective = "reduce_uncertainty";
      mode = "automatic_read_only";
      tool = some "window_rows";
      domains = every_domain;
      disruption = "none";
      who = "Support engineer";
      tools = ("Veyra source viewer" ∷ []);
      why =
          "Confirms what was actually recorded and where coverage is missing before anything is attributed.";
      expected =
          (("coverage_ok", "Records exist for the symptom window")
            ∷ ("coverage_gap", "Gaps limit what can be concluded")
            ∷ []);
    }
    ∷ record unconditional {
      id = "CHK-DECLARE-REFERENCE";
      question = "Declare a known-good run for this machine to compare against";
      objective = "reduce_uncertainty";
      mode = "remote_manual";
      domains = every_domain;
      disruption = "none";
      who = "Field engineer with the operator";
      tools = ("Shift log" ∷ "Operator confirmation" ∷ []);
      why =
          "Comparisons are only as good as the reference. Without a declared known-good window they rest on assuming earlier data was healthy.";
      expected =
          (("declared", "Every comparison is made against confirmed normal behaviour")
            ∷ ("none_available", "Results stay labelled as assumption-based")
            ∷ []);
    }
    ∷ record unconditional {
      id = "CHK-BRIEF-EVENTS";
      question = "Scan every high-rate sample for brief events a plot would hide";
      objective = "reduce_uncertainty";
      mode = "automatic_read_only";
      tool = some "transients";
      domains = ("control_suite" ∷ "vehicle_interface" ∷ "vehicle_body" ∷ []);
      disruption = "none";
      who = "Support engineer";
      tools = ("Brief-event scan" ∷ []);
      why =
          "A one-sample spike lasting tens of milliseconds is invisible on a whole-run plot but can mark where to look.";
      expected =
          (("events", "Exact timestamps and source rows of brief departures")
            ∷ ("none", "No sub-second departures on scanned signals")
            ∷ []);
    }
    ∷ record unconditional {
      id = "CHK-INTERVENTION-REVIEW";
      question =
          "Review the operator's intervention: stated reason against what was recorded at that moment";
      objective = "reduce_uncertainty";
      mode = "remote_manual";
      domains = every_domain;
      disruption = "none";
      who = "Support engineer with the operator";
      tools = ("Intervention record" ∷ "Signals around the intervention" ∷ []);
      why =
          "On a machine meant to run under remote control, every intervention is worth explaining. A false alarm is still worth recreating.";
      expected =
          (("necessary", "Recorded behaviour supports the operator's reason")
            ∷ ("unnecessary", "Recreate the conditions that triggered a false alarm")
            ∷ []);
    }
    ∷ record unconditional {
      id = "CHK-REPRODUCE";
      question =
          "Try to reproduce the symptom under the recorded conditions (log replay, bench or simulation)";
      objective = "reduce_uncertainty";
      mode = "remote_manual";
      domains = every_domain;
      disruption = "low";
      who = "Controls engineer";
      tools = ("Log replay" ∷ "Bench controller" ∷ "Simulator" ∷ []);
      why =
          "If the symptom can be produced on purpose, the suspected mechanism gains support and a fix can be tested before travel.";
      expected =
          (("reproduced", "Mechanism supported; test the fix the same way")
            ∷ ("not_reproduced", "Conditions or model differ from the field")
            ∷ []);
    }
    ∷ record unconditional {
      id = "CHK-CMD-CHAIN";
      question = "Compare command stage latencies inside vs outside the symptom window";
      objective = "reduce_uncertainty";
      mode = "automatic_read_only";
      tool = some "command_chain";
      domains = every_domain;
      disruption = "none";
      who = "Support engineer";
      tools = ("Command-ID correlation" ∷ []);
      requires_signals = ("command.received" ∷ "command.output" ∷ []);
      why =
          "Shows in which segment of the same commands time elapsed; segments without records stay open.";
      expected =
          (("network", "Delay before receipt")
            ∷ ("control_suite", "Delay between receipt and output")
            ∷ ("vehicle", "Delay between output and feedback")
            ∷ []);
    }
    ∷ record unconditional {
      id = "CHK-IO-BASELINE";
      question = "Compare vehicle-side input→response behaviour with a baseline window";
      objective = "reduce_uncertainty";
      mode = "automatic_read_only";
      tool = some "input_response";
      domains = ("vehicle_interface" ∷ "vehicle_body" ∷ []);
      disruption = "none";
      who = "Controls engineer";
      tools = ("Input–Response Baseline" ∷ []);
      requires_signals = ("vehicle.command_input" ∷ "vehicle.actuator_response" ∷ []);
      requires_context =
          ("oem" ∷ "model" ∷ "kit_version" ∷ "control_version" ∷ "firmware_version"
            ∷ "vehicle_interface" ∷ []);
      why =
          "If the machine responds to received commands as it did before, a vehicle-side slowdown is less likely for that channel.";
      expected =
          (("unchanged", "Vehicle-side response comparable to baseline")
            ∷ ("changed", "Delay or gain changed on the vehicle side")
            ∷ []);
    }
    ∷ record unconditional {
      id = "CHK-CLOCK-OFFSET";
      question =
          "Establish the clock offset between the operator station and the machine (sync logs or a shared event)";
      objective = "reduce_uncertainty";
      mode = "remote_manual";
      domains = ("network" ∷ "control_suite" ∷ []);
      disruption = "none";
      who = "Support engineer";
      tools = ("NTP/PTP/GPS sync logs" ∷ "A timestamped event seen by both clocks" ∷ []);
      why =
          "Without a bounded offset, absolute delay between a command being sent and the machine receiving it is unknown, and any relative change rests on the offset staying stable.";
      expected =
          (("bounded", "Transport-segment latency becomes measurable")
            ∷ ("unbounded", "Network transport stays unmeasured")
            ∷ []);
    }
    ∷ record unconditional {
      id = "CHK-PROBE-PATH";
      question = "Confirm the RTT probe measures the actual command path";
      objective = "reduce_uncertainty";
      mode = "remote_manual";
      domains = ("network" ∷ []);
      disruption = "none";
      who = "Network engineer";
      tools = ("Probe configuration" ∷ "Routing table" ∷ []);
      why = "A probe on a different path can neither confirm nor exclude command-path delay.";
      expected =
          (("same_path", "Probe anomalies describe the command path")
            ∷ ("different_path", "Probe results do not apply to commands")
            ∷ []);
    }
    ∷ record unconditional {
      id = "CHK-NETWORK-LOGS";
      question = "Export router/base-station logs for the symptom window";
      objective = "reduce_uncertainty";
      mode = "remote_manual";
      domains = ("network" ∷ []);
      disruption = "low";
      who = "Network engineer";
      tools = ("Router log export" ∷ []);
      requires_authorization = true;
      why = "Link drops, handovers or congestion on the command path would show here.";
      expected =
          (("network_event", "Link events align with the symptom")
            ∷ ("no_event", "Network stays possible if logs are incomplete")
            ∷ []);
    }
    ∷ record unconditional {
      id = "CHK-CONTROLLER-LOGS";
      question =
          "Retrieve controller application logs around the heartbeat gap, resets and fault codes";
      objective = "reduce_uncertainty";
      mode = "remote_manual";
      domains = ("control_suite" ∷ []);
      disruption = "low";
      who = "Controls engineer";
      tools = ("Controller log export" ∷ []);
      requires_authorization = true;
      why = "Explains what the application was doing when it stopped reporting or restarted.";
      expected =
          (("application_fault", "Errors precede the gap or restart")
            ∷ ("external_trigger", "Restart follows a link-supervision event")
            ∷ []);
    }
    ∷ record unconditional {
      id = "CHK-DRIVE-LOGS";
      question =
          "Retrieve the drive's own log for the axis named in the evidence (error register, temperature, encoder status)";
      objective = "reduce_uncertainty";
      mode = "remote_manual";
      domains = ("vehicle_interface" ∷ []);
      disruption = "low";
      who = "Drive / actuator engineer";
      tools = ("Drive or joint controller log export" ∷ []);
      requires_authorization = true;
      why =
          "Shows whether the drive itself recorded a hardware fault (over-temperature, encoder or power error) or only the tracking error.";
      expected =
          (("drive_hw_fault", "The drive recorded a hardware fault before the departure")
            ∷ ("drive_no_hw_fault", "Only the tracking error, no hardware fault")
            ∷ []);
    }
    ∷ record unconditional {
      id = "CHK-CONFIRM-CONTEXT";
      question = "Confirm the machine context needed for comparisons";
      objective = "reduce_uncertainty";
      mode = "remote_manual";
      domains = every_domain;
      disruption = "none";
      who = "Field engineer on site";
      tools = ("Machine records" ∷ "Kit and software inventory" ∷ []);
      why =
          "Baseline and precedent comparisons are blocked until the relevant attributes are confirmed.";
      expected =
          (("confirmed", "Comparisons become available")
            ∷ ("changed", "A recorded change may explain behaviour differences")
            ∷ []);
    }
    ∷ record unconditional {
      id = "CHK-ONSITE-ACTUATOR";
      question = "Inspect actuator and hydraulic response on site";
      objective = "reduce_uncertainty";
      mode = "onsite";
      domains = ("vehicle_interface" ∷ "vehicle_body" ∷ []);
      disruption = "high";
      who = "Field service technician";
      tools = ("Hydraulic gauges" ∷ "OEM-approved service tooling (confirm compatibility)" ∷ []);
      why =
          "Direct inspection when vehicle-side evidence points there or remote evidence is exhausted.";
      expected =
          (("fault_found", "Physical finding recorded with evidence")
            ∷ ("nothing_found", "Vehicle side less likely for the inspected channel")
            ∷ []);
    }
    ∷ record unconditional {
      id = "CHK-RESTORE";
      question = "Agree an approved service-restoration option with the site owner";
      objective = "restore_operations";
      mode = "coordination";
      domains = [];
      disruption = "low";
      who = "Site owner + authorized controls engineer";
      tools = ("Approved service procedure" ∷ []);
      why =
          "Restoring operation and reducing uncertainty are different goals; this does not diagnose anything.";
      expected =
          (("approved_option", "A human selects an approved intervention")
            ∷ ("blocked", "Keep the machine state unchanged and escalate")
            ∷ []);
    }
    ∷ []
