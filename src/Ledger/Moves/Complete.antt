-- ===== src/Ledger/Moves/Complete.antt =====
-- The table of transitions allows every arrow of the lifecycle, and the loop of `check_state` follows it.
use veyra_demo.Ledger.Entry.{Entry, schema_version}
use veyra_demo.Ledger.Lifecycle.{
  CheckState, answered, approved, check_step, may_act, not_performed, proposed, rejected, sent,
}
use veyra_demo.Ledger.Moves.{
  CheckMove, IsApproved, IsAwaited, IsOpen, answer, approve, reject, send, skip,
}
use veyra_demo.Prelude.{String, [], refl, same_text, some, true, ◌∷◌, ◌≡◌}
use veyra_demo.Python.Value.{Dict, dict, str, texts, value_eq}

abbrev pub step_entry : String → Dict → Entry
step_entry kind payload = record {
  body = record {
    schema = schema_version;
    id = "";
    case_id = "";
    kind = kind;
    actor = "";
    source = "";
    recorded_at = "";
    payload = payload;
    links = [];
    prev_hash = "";
  };
  hash = "";
}

abbrev review_entry : String → String → String → Entry
review_entry run check_id verdict =
    step_entry "check_review"
      (dict (("run_id", str run) ∷ ("check_id", str check_id) ∷ ("verdict", str verdict) ∷ []))

abbrev request_entry : String → String → Entry
request_entry run check_id =
    step_entry "request_sent"
      (dict (("run_id", str run) ∷ ("check_ids", texts (check_id ∷ [])) ∷ []))

abbrev execution_entry : String → String → String → Entry
execution_entry run check_id status =
    step_entry "check_execution"
      (dict (("run_id", str run) ∷ ("check_id", str check_id) ∷ ("status", str status) ∷ []))

-- An entry that the table allows in state `s` and that leads to `t`.
pub record Realized (run check_id : String) (s t : CheckState) : Type 0 where
  pub entry : Entry
  pub allowed : may_act entry.kind s ≡ some true
  pub leads : check_step (str run) check_id s entry ≡ t

may_review : (s : CheckState) → IsOpen s → may_act "check_review" s ≡ some true
unfolding may_act
may_review proposed h = refl
may_review approved h = refl
may_review rejected h = refl
may_review sent h = absurd h
may_review answered h = absurd h
may_review not_performed h = absurd h

may_request : (s : CheckState) → IsApproved s → may_act "request_sent" s ≡ some true
unfolding may_act
may_request approved h = refl
may_request sent h = refl
may_request proposed h = absurd h
may_request rejected h = absurd h
may_request answered h = absurd h
may_request not_performed h = absurd h

may_execute : (s : CheckState) → IsAwaited s → may_act "check_execution" s ≡ some true
unfolding may_act
may_execute approved h = refl
may_execute sent h = refl
may_execute not_performed h = refl
may_execute proposed h = absurd h
may_execute rejected h = absurd h
may_execute answered h = absurd h

-- Every arrow of the lifecycle is one that the table allows and that an entry of its kind takes.
pub CheckMove-Realized :
    (run check_id : String) (s t : CheckState) → CheckMove s t → Realized run check_id s t
unfolding check_step value_eq
CheckMove-Realized run check_id s t (approve h) = record {
  entry = review_entry run check_id "accepted";
  allowed = may_review s h;
  leads = rw (same_text run, same_text check_id) refl;
}
CheckMove-Realized run check_id s t (reject h) = record {
  entry = review_entry run check_id "rejected";
  allowed = may_review s h;
  leads = rw (same_text run, same_text check_id) refl;
}
CheckMove-Realized run check_id s t (send h) = record {
  entry = request_entry run check_id;
  allowed = may_request s h;
  leads = rw (same_text run, same_text check_id) refl;
}
CheckMove-Realized run check_id s t (answer h) = record {
  entry = execution_entry run check_id "performed";
  allowed = may_execute s h;
  leads = rw (same_text run, same_text check_id) refl;
}
CheckMove-Realized run check_id s t (skip h) = record {
  entry = execution_entry run check_id "not_performed";
  allowed = may_execute s h;
  leads = rw (same_text run, same_text check_id) refl;
}
