-- ===== src/Store/History/Decided.antt =====
-- What a history does to a decision.
use veyra_demo.Ledger.Entry.{Entry}
use veyra_demo.Ledger.Progress.{decision_state}
use veyra_demo.Ledger.Progress.Onward.{decision_state_le, level}
use veyra_demo.Prelude.{String, ap, keep-append, subst, sym, ◌==◌, ◌∙◌, ◌≤◌}
use veyra_demo.Store.History.{Reach}
use veyra_demo.Store.History.Sound.{Reach-append_only}
use veyra_demo.Store.Tables.{Db, Services, in_case, ledger_of}

-- Over any sequence of ledger writes, by a person, by a run or by Veyra itself, and of failed calls, a decision of a case
-- never goes back from one of these stages to an earlier one: decided, acted on, outcome recorded, reviewed. Within the
-- last stage a later review can turn a verified decision into one whose verification is rejected, or back.
pub Reach-decision_state :
    (s : Services) (db db' : Db)
    → Reach s db db'
    → (c d : String)
    → level (decision_state (ledger_of db c) d) ≤ level (decision_state (ledger_of db' c) d)
unfolding ledger_of
Reach-decision_state s db db' reach c d =
    let (more, same) = Reach-append_only s db db' reach in
    subst (λ es. level (decision_state (in_case c db.ledger) d) ≤ level (decision_state es d))
      (sym (ap (in_case c) same ∙ keep-append (λ (e : Entry). e.case_id == c) db.ledger more))
      (decision_state_le (in_case c db.ledger) (in_case c more) d)
