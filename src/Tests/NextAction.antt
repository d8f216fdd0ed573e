-- ===== src/Tests/NextAction.antt =====
-- The next action on one case: a link and a controller that both show an anomaly, and the controller's logs.
use veyra_demo.Advice.Assess.{Run, assess, candidates, has_evidence}
use veyra_demo.Advice.Assess.Kept.{IsLeftOpen, assess_iff}
use veyra_demo.Advice.Board.{Assessment}
use veyra_demo.Advice.Catalog.{catalog}
use veyra_demo.Advice.Checks.{
  automatic_availability, availability_of, eligibility, manual_availability,
}
use veyra_demo.Advice.Compare.{Row, compare_checks, compare_row, plan, plan_from, rows_from}
use veyra_demo.Advice.Compare.Asked.{Apart, IsAsked, plan-Apart, plan-IsAsked}
use veyra_demo.Advice.Decide.{
  NextReport, acted_on, decide, fix_remotely_first, hold_for_evidence, reasons,
}
use veyra_demo.Advice.Decide.Settled.{IsGrounded, decide-IsGrounded, decide-waits}
use veyra_demo.Advice.Rank.{RankedCheck, for_case, reword, row_of, trigger_of_logs, triggered}
use veyra_demo.Engine.Outcomes.{outcome_of}
use veyra_demo.Ledger.Scores.{part_scores, top_part, weigh_results}
use veyra_demo.Ledger.SiteResults.{SiteResult}
use veyra_demo.Prelude.{
  In, List, String, [], false, first, last?, length, map, none, refl, some, subst, sym, true, ◌↔◌,
  ◌∙◌, ◌∷◌, ◌≡◌, ◌≤◌, ◌⊎◌,
}
use veyra_demo.Python.Text.{lstrip, rstrip, spaced, strip}
use veyra_demo.Python.Value.{dict, str}
use veyra_demo.Tests.Advice.{check_at, quiet_facts, seen_parts}

abbrev shows : String → Assessment
shows signal = record {
  status = "anomaly_observed";
  observations =
      record {
        kind = "anomaly";
        rule = "R-SCREEN";
        signal = some signal;
        scope = none;
        text = "seen";
      }
      ∷ [];
}

abbrev controller_logs : RankedCheck
controller_logs =
    row_of (λ n. "0.5") seen_parts quiet_facts "reduce_uncertainty" none (check_at 10 catalog)

abbrev the_run : Run
the_run = record {
  id = "r1";
  parts =
      ("network", shows "network.rtt")
      ∷ ("control_suite", shows "controller.event")
      ∷ ("vehicle_body", shows "vehicle.velocity")
      ∷ [];
  labels = ("control_suite", "Controller") ∷ [];
  owners = ("network", "Network team") ∷ [];
  axes = [];
  board = [];
  signals = "network.rtt" ∷ [];
  checks = controller_logs ∷ [];
  preparation = [];
  blockers =
      ("Access for CHK-CONTROLLER-LOGS", "not_recorded")
      ∷ ("Permit", "authorization_required")
      ∷ [];
}

-- how the machine moved is an effect, and the other two cannot be told apart
told_parts : map (λ n. n.label) (assess the_run).cannot_tell_apart ≡ "network" ∷ "Controller" ∷ []
unfolding assess candidates spaced
told_parts = refl

assess_iff_example :
    (In "vehicle_body" (map (λ n. n.part) (assess the_run).supported)
      ⊎ In "vehicle_body" (map (λ n. n.part) (assess the_run).effects))
    ↔ (IsLeftOpen the_run "vehicle_body" × (has_evidence the_run "vehicle_body" ≡ true))
assess_iff_example = assess_iff the_run "vehicle_body"

abbrev asked_row : Row
asked_row =
    compare_row the_run ("network" ∷ "control_suite" ∷ [])
      (("network", record { gained = 1; lost = 0 })
        ∷ ("control_suite", record { gained = 1; lost = 0 })
        ∷ [])
      [] 1 controller_logs

asks_one : plan the_run (assess the_run) 2 [] ≡ asked_row ∷ []
unfolding plan plan_from compare_checks compare_row rows_from part_scores weigh_results assess
    candidates row_of triggered trigger_of_logs for_case reword availability_of
    automatic_availability manual_availability eligibility top_part spaced
asks_one = refl

plan-IsAsked_example : IsAsked the_run (assess the_run) [] asked_row
plan-IsAsked_example =
    plan-IsAsked the_run (assess the_run) 2 [] asked_row
      (subst (In asked_row) (sym asks_one) (first refl))

plan-Apart_example :
    (length (plan the_run (assess the_run) 2 []) ≤ 2) × Apart (plan the_run (assess the_run) 2 [])
plan-Apart_example = plan-Apart the_run (assess the_run) 2 []

decide-waits_example :
    (decide the_run (assess the_run) (record { row = asked_row; approved = false } ∷ []) []).status
    ≡ hold_for_evidence
decide-waits_example =
    decide-waits the_run (assess the_run) (record { row = asked_row; approved = false } ∷ []) []
      refl

abbrev link_lost : List (String × SiteResult)
link_lost =
    (
      "CHK-CONTROLLER-LOGS",
      record {
        payload = dict (
            ("status", str "performed")
            ∷ ("outcome", str "link_loss_first")
            ∷ ("observations", str "at 10:02")
            ∷ []);
        entry_id = "e";
        this_run = false;
      },
    )
    ∷ []

abbrev report : NextReport
report =
    decide the_run (assess the_run) (record { row = asked_row; approved = true } ∷ []) link_lost

fixes_the_link : report.status ≡ fix_remotely_first
unfolding decide acted_on part_scores weigh_results outcome_of assess candidates
fixes_the_link = refl

decide-IsGrounded_example : IsGrounded the_run link_lost report
decide-IsGrounded_example =
    decide-IsGrounded the_run (record { row = asked_row; approved = true } ∷ []) link_lost
      (λ e. cc (sym fixes_the_link ∙ e))

last_reason :
    last? report.why
    ≡ some (
      "Site result for CHK-CONTROLLER-LOGS: The controller recorded a lost operator link before the problem started. at 10:02",
      "ledger e · site · from an earlier investigation",
    )
unfolding decide reasons assess candidates outcome_of strip lstrip rstrip
last_reason = refl

left_unknown : report.still_unknown ≡ "Permit" ∷ []
unfolding decide outcome_of compare_row row_of
left_unknown = refl
