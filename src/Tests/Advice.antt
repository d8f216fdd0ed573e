-- ===== src/Tests/Advice.antt =====
-- Advice on one case: which checks may be recommended, what stands as ruled out, and who should own it.
use veyra_demo.Advice.Board.{
  Assessment, BoardRow, board_row, covered, covered_from, hypothesis_board, key_parts,
  new_data_note, open_column, place, place_ruled_out, remaining_keys, ruled_out_column,
}
use veyra_demo.Advice.Board.Excluded.{IsExcluded, hypothesis_board-IsExcluded}
use veyra_demo.Advice.Catalog.{CatalogCheck, catalog}
use veyra_demo.Advice.Checks.{
  Facts, automatic_availability, availability_of, eligibility, manual_availability,
}
use veyra_demo.Advice.Rank.{
  RankedCheck, explain, for_case, rank, ranks_before, reword, row_of, trigger_of_logs, triggered,
}
use veyra_demo.Advice.Rank.Order.{RanksAbove, rank-InOrder}
use veyra_demo.Advice.Triage.{owner_of, propose, recurrence, recurrence_note}
use veyra_demo.Advice.Triage.Ownership.{IsStrongest, propose-IsStrongest}
use veyra_demo.Ledger.Chain.{build_entry}
use veyra_demo.Ledger.Entry.{Entry}
use veyra_demo.Prelude.{
  In, List, String, [], false, first, map, none, refl, some, subst, suc, sym, take, true, zero, ℕ,
  ◌++◌, ◌↔◌, ◌∷◌, ◌≡◌,
}
use veyra_demo.Python.Result.{ok, select, traverse}
use veyra_demo.Python.Text.{decimal_from, lstrip, number_text, rstrip, spaced, split_on, strip}
use veyra_demo.Python.Value.{Dict, dict, obj, str, texts, value_eq}
use veyra_demo.Tests.Toy.{toy}

abbrev pub quiet_facts : Facts
quiet_facts = record {
  signals_present = "command.received" ∷ [];
  answered = ("CHK-REPRODUCE", "1 reproduction attempt(s) recorded") ∷ [];
  sources_in_case = [];
  interventions_total = 0;
  interventions_unreviewed = [];
  brief_events_scanned = true;
  brief_events_in_window = 12;
  io_needs_context = [];
  remote_access = none;
  previously_performed = [];
  precedent_checks = [];
  transport_cross_clock = false;
  network_crossing = true;
  endpoints_confirmed = false;
  control_events = false;
  context_gaps = [];
  vehicle_departures = [];
  vehicle_delay = false;
  reference_status = some "declared";
  observed_domains = [];
  reproduction_attempts = 1;
  rows_in_window = true;
}

abbrev pub seen_parts : List (String × String)
seen_parts = ("network", "anomaly_observed") ∷ ("vehicle_body", "not_observed") ∷ []

abbrev advised : List RankedCheck
advised = rank (λ n. "0.5") seen_parts quiet_facts "reduce_uncertainty" none

-- the first two
first_checks : map (λ r. r.check.id) (take 2 advised) ≡ "CHK-SOURCE-ROWS" ∷ "CHK-BRIEF-EVENTS" ∷ []
unfolding rank row_of ranks_before triggered trigger_of_logs for_case reword availability_of
    automatic_availability manual_availability eligibility number_text decimal_from
first_checks = refl

-- a check of the catalog by its place
abbrev pub check_at : ℕ → List CatalogCheck → CatalogCheck
check_at n [] = record {
  id = "";
  question = "";
  objective = "";
  mode = "";
  tool = none;
  domains = [];
  disruption = "";
  who = "";
  tools = [];
  requires_signals = [];
  requires_context = [];
  requires_authorization = false;
  why = "";
  expected = [];
}
check_at zero (c ∷ cs) = c
check_at (suc n) (c ∷ cs) = check_at n cs

abbrev brief_events : RankedCheck
brief_events =
    row_of (λ n. "0.5") seen_parts quiet_facts "reduce_uncertainty" none (check_at 2 catalog)

abbrev source_rows : RankedCheck
source_rows =
    row_of (λ n. "0.5") seen_parts quiet_facts "reduce_uncertainty" none (check_at 0 catalog)

abbrev without_first : List RankedCheck → List RankedCheck
without_first [] = []
without_first (r ∷ rs) = rs

rows_come_first :
    (advised ≡ [] ++ source_rows ∷ without_first advised)
    × (without_first advised ≡ brief_events ∷ without_first (without_first advised))
unfolding rank row_of ranks_before triggered trigger_of_logs for_case reword availability_of
    automatic_availability manual_availability eligibility number_text decimal_from
rows_come_first = (refl, refl)

rank-InOrder_example : ¬ RanksAbove brief_events source_rows
rank-InOrder_example =
    rank-InOrder (λ n. "0.5") seen_parts quiet_facts "reduce_uncertainty" none [] source_rows
      (without_first advised) rows_come_first.0 brief_events
      (subst (In brief_events) (sym rows_come_first.1) (first refl))

-- an anomaly of the link that a person ruled out
abbrev slow_link : Assessment
slow_link = record {
  status = "anomaly_observed";
  observations =
      record {
        kind = "anomaly";
        rule = "R-SCREEN";
        signal = some "network.rtt";
        scope = none;
        text = "seen";
      }
      ∷ [];
}

abbrev stuck_body : Assessment
stuck_body = record {
  status = "anomaly_observed";
  observations =
      record {
        kind = "anomaly";
        rule = "R-OUTPUT-STUCK";
        signal = none;
        scope = some "arm";
        text = "seen";
      }
      ∷ [];
}

-- the data of a case with one import
abbrev data_of : String → Dict
data_of sha = dict (("imp", str sha) ∷ [])

abbrev link_verdict : Entry
link_verdict =
    build_entry toy "verdict" "case" "hypothesis_status" "Ann" "console" 1
      (dict (
        ("domain", str "network")
        ∷ ("status", str "ruled_out")
        ∷ ("excluded_observations", texts ("R-SCREEN|network.rtt|*" ∷ []))
        ∷ ("input_hashes", obj (data_of "sha"))
        ∷ []))
      [] "GENESIS"

abbrev two_parts : List (String × Assessment)
two_parts = ("network", slow_link) ∷ ("vehicle_body", stuck_body) ∷ []

abbrev link_row : BoardRow
link_row = record {
  domain = "network";
  owner = none;
  engine_status = "anomaly_observed";
  placing = record { column = ruled_out_column; partly = none; note = none };
  human = some link_verdict;
  hint = none;
  evidence_count = 1;
}

abbrev body_row : BoardRow
body_row = record {
  domain = "vehicle_body";
  owner = none;
  engine_status = "anomaly_observed";
  placing = record { column = open_column; partly = none; note = none };
  human = none;
  hint = none;
  evidence_count = 1;
}

board_runs :
    hypothesis_board two_parts (link_verdict ∷ []) [] (some (data_of "sha"))
    ≡ ok (link_row ∷ body_row ∷ [])
unfolding hypothesis_board board_row place place_ruled_out remaining_keys covered covered_from
    key_parts split_on select traverse build_entry strip lstrip rstrip value_eq
board_runs = refl

-- after another import the link is open again
open_after_new_data :
    hypothesis_board two_parts (link_verdict ∷ []) [] (some (data_of "other"))
    ≡ ok (
        record link_row {
          placing = record {
            column = open_column;
            partly = some ("R-SCREEN|network.rtt|*" ∷ [], []);
            note = some new_data_note;
          };
        }
        ∷ body_row
        ∷ [])
unfolding hypothesis_board board_row place place_ruled_out remaining_keys covered covered_from
    key_parts split_on select traverse build_entry strip lstrip rstrip value_eq
open_after_new_data = refl

hypothesis_board-IsExcluded_example :
    (a : Assessment) × In ("network", a) two_parts
    × IsExcluded (link_verdict ∷ []) (some (data_of "sha")) "network" a
hypothesis_board-IsExcluded_example =
    hypothesis_board-IsExcluded two_parts (link_verdict ∷ []) [] (some (data_of "sha"))
      (link_row ∷ body_row ∷ []) link_row board_runs (first refl) refl

propose-IsStrongest_example :
    In "vehicle_body"
      (propose (λ d. d) (λ d. d) two_parts (link_row ∷ body_row ∷ []) [] []).owner.owned
    ↔ IsStrongest two_parts (link_row ∷ body_row ∷ []) "vehicle_body"
propose-IsStrongest_example =
    propose-IsStrongest two_parts (link_row ∷ body_row ∷ []) (λ d. d) (λ d. d) [] [] "vehicle_body"

proposed_owner :
    (propose
      (λ d. d)
      (λ d. d)
      two_parts
      (link_row ∷ body_row ∷ [])
      ("takeover" ∷ [])
      []).owner.owned
    ≡ "vehicle_body" ∷ []
unfolding propose owner_of
proposed_owner = refl

seen_before :
    map
      (λ r. r.different_operators)
      (recurrence toy
        (record {
          case_id = "c0";
          observed_domains = "network" ∷ [];
          operators = "Bob" ∷ "Ann" ∷ [];
        }
          ∷ [])
        two_parts
        ("Ann" ∷ [])
        []
        (λ d. d))
    ≡ ("Bob" ∷ []) ∷ []
unfolding recurrence recurrence_note
seen_before = refl

explained :
    explain brief_events
    ≡ "matches objective; not yet answered; triggered: 12 brief event(s) inside the symptom window; availability: ready automatic; informs 1 open domain(s); disruption: none"
unfolding explain row_of triggered trigger_of_logs for_case reword availability_of
    automatic_availability manual_availability eligibility number_text decimal_from spaced
explained = refl
