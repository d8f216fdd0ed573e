-- ===== src/Tests/Readers.antt =====
-- The readers of payload fields, the chain and the lifecycle at concrete values.
use veyra_demo.Engine.Outcomes.{find_key, outcome_of}
use veyra_demo.Ledger.Chain.{
  broken, build_entry, head_hash, is_valid, valid, verify_chain, verify_from,
}
use veyra_demo.Ledger.Chain.Tamper.{Collision, same_head}
use veyra_demo.Ledger.Chain.Valid.{Chained, end_hash, verify-build_entry, verify_chain_iff}
use veyra_demo.Ledger.Entry.{Entry, genesis}
use veyra_demo.Ledger.Lifecycle.{answered, sent}
use veyra_demo.Ledger.Moves.{answer}
use veyra_demo.Ledger.Moves.Complete.{CheckMove-Realized, Realized, step_entry}
use veyra_demo.Ledger.Payload.{
  choice, id_list, read_choice, read_ids, read_moment, read_text, text, time,
}
use veyra_demo.Ledger.Progress.{decision_state, state_acted, state_verified}
use veyra_demo.Ledger.Progress.Onward.{IsVerified, decision_state-IsVerified}
use veyra_demo.Ledger.Scores.{
  Score, action_basis, could_change, lead_part, part_scores, top_part, weigh_results,
}
use veyra_demo.Ledger.SiteResults.{site_result, site_results, site_results_from, site_step}
use veyra_demo.Ledger.SiteResults.Latest.{site_results-standing, standing}
use veyra_demo.Prelude.{List, String, [], length, none, refl, some, true, ◌++◌, ◌+◌, ◌∷◌, ◌≡◌, ◌⊎◌}
use veyra_demo.Python.Result.{err, ledger_error, ok}
use veyra_demo.Python.Text.{char_count, lstrip, replace_z, rstrip, strip}
use veyra_demo.Python.Value.{Dict, dict, str, texts, value_eq}
use veyra_demo.Tests.Case.{
  all_entries, reviewed_entries, the_action, the_execution, the_outcome, the_review, the_run,
}
use veyra_demo.Tests.Toy.{parse_from, toy, toy-IsHex, toy_isoformat}

abbrev note_payload : Dict
note_payload = dict (
    ("note", str "  two words ")
    ∷ ("verdict", str "normal")
    ∷ ("at", str "11+1")
    ∷ ("evidence", texts ("a" ∷ []))
    ∷ [])

reads_text : text note_payload "note" 12 ≡ ok "two words"
unfolding text read_text strip lstrip rstrip char_count
reads_text = refl

refuses_long_text :
    text note_payload "note" 11 ≡ err (ledger_error "'note' must be text up to the limit")
unfolding text read_text strip lstrip rstrip char_count
refuses_long_text = refl

reads_choice : choice note_payload "verdict" ("normal" ∷ "relevant" ∷ []) ≡ ok "normal"
unfolding choice read_choice
reads_choice = refl

reads_time : time toy note_payload "at" 2 ≡ ok "11+1"
unfolding time read_moment replace_z parse_from toy_isoformat
reads_time = refl

refuses_future : time toy note_payload "at" 1 ≡ err (ledger_error "'at' cannot be in the future")
unfolding time read_moment replace_z parse_from toy_isoformat
refuses_future = refl

reads_ids : id_list note_payload "evidence" ("b" ∷ "a" ∷ []) "Evidence imports" ≡ ok ("a" ∷ [])
unfolding id_list read_ids
reads_ids = refl

chain_is_valid : is_valid (verify_chain toy reviewed_entries) ≡ true
unfolding verify_chain verify_from build_entry strip lstrip rstrip toy_isoformat
chain_is_valid = refl

-- a changed payload shows
abbrev forged : Entry
forged = record { body = record (the_run.body) { id = "forged" }; hash = the_run.hash }

forged_is_found :
    verify_chain toy (forged ∷ the_review ∷ [])
    ≡ broken 0 "forged" "entry content does not match its hash"
unfolding verify_chain verify_from build_entry strip lstrip rstrip toy_isoformat
forged_is_found = refl

verify_chain_iff_example :
    (Chained toy genesis reviewed_entries
      → verify_chain toy reviewed_entries
        ≡ valid (length reviewed_entries) (end_hash genesis reviewed_entries))
    × (is_valid (verify_chain toy reviewed_entries) ≡ true → Chained toy genesis reviewed_entries)
verify_chain_iff_example = verify_chain_iff toy reviewed_entries

verify-build_entry_example :
    let e =
      build_entry toy "n" "case" "event_note" "Ann" "console" 3 note_payload []
        (head_hash reviewed_entries) in
    verify_chain toy (reviewed_entries ++ e ∷ []) ≡ valid (length reviewed_entries + 1) e.hash
verify-build_entry_example =
    verify-build_entry toy reviewed_entries "n" "case" "event_note" "Ann" "console" 3 note_payload
      [] chain_is_valid

same_head_example : (reviewed_entries ≡ reviewed_entries) ⊎ Collision toy
same_head_example =
    same_head toy toy-IsHex reviewed_entries reviewed_entries chain_is_valid chain_is_valid refl

CheckMove-Realized_example : Realized "r1" "CHK-NETWORK-LOGS" sent answered
CheckMove-Realized_example = CheckMove-Realized "r1" "CHK-NETWORK-LOGS" sent answered (answer tt)

abbrev accepted_outcome : Entry
accepted_outcome =
    step_entry "outcome_review"
      (dict (("outcome_id", str "outcome") ∷ ("verdict", str "accepted") ∷ []))

decision_is_verified :
    decision_state (the_action ∷ the_outcome ∷ accepted_outcome ∷ []) "decision" ≡ state_verified
unfolding decision_state build_entry strip lstrip rstrip
decision_is_verified = refl

decision_is_acted : decision_state (the_action ∷ []) "decision" ≡ state_acted
unfolding decision_state build_entry strip lstrip rstrip
decision_is_acted = refl

decision_state-IsVerified_example :
    IsVerified (the_action ∷ the_outcome ∷ accepted_outcome ∷ []) "decision"
decision_state-IsVerified_example =
    decision_state-IsVerified (the_action ∷ the_outcome ∷ accepted_outcome ∷ []) "decision"
      decision_is_verified

seen_result :
    find_key "CHK-NETWORK-LOGS" (site_results all_entries (str "r1"))
    ≡ some (site_result the_execution true)
unfolding site_results site_results_from site_step build_entry value_eq
seen_result = refl

site_results-standing_example :
    find_key "CHK-NETWORK-LOGS" (site_results all_entries (str "r1"))
    ≡ standing (str "r1") "CHK-NETWORK-LOGS" none all_entries
site_results-standing_example = site_results-standing all_entries (str "r1") "CHK-NETWORK-LOGS"

-- A link log without events takes the lead from the network.
abbrev after_log : List (String × Score)
after_log =
    part_scores (λ d. "anomaly_observed") ("network" ∷ "control_suite" ∷ [])
      ((
        "CHK-NETWORK-LOGS",
        record {
          payload = dict (("status", str "performed") ∷ ("outcome", str "no_event") ∷ []);
          entry_id = "e";
          this_run = true;
        },
      )
        ∷ [])

leads : lead_part after_log ≡ some "control_suite"
unfolding lead_part part_scores weigh_results outcome_of
leads = refl

log_could_change :
    could_change "dispatch" ""
      (part_scores (λ d. "anomaly_observed") ("network" ∷ "vehicle_body" ∷ []) [])
      "CHK-NETWORK-LOGS"
    ≡ "Link drops or handovers during the problem"
      ∷ "No link events during the problem (logs cover the whole window)" ∷ []
unfolding could_change action_basis top_part part_scores weigh_results
log_could_change = refl
