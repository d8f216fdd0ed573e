-- ===== src/Ledger/Moves.antt =====
-- The check lifecycle as a state machine, stated apart from the code, and the proof that every
-- entry that `validate` accepts moves each check along it or leaves the check alone.
pub mod Recorded
pub mod Execution
pub mod Effect
pub mod Every
pub mod Complete
use veyra_demo.Ledger.Lifecycle.{
  CheckState, answered, approved, may_act, not_performed, proposed, rejected, sent,
}
use veyra_demo.Prelude.{some, true, ◌≡◌}

-- still open to review: no request and no result yet
abbrev pub IsOpen : CheckState → Type 0
IsOpen proposed = Unit
IsOpen approved = Unit
IsOpen rejected = Unit
IsOpen sent = ⊥
IsOpen answered = ⊥
IsOpen not_performed = ⊥

-- approved, with a request out or not
abbrev pub IsApproved : CheckState → Type 0
IsApproved proposed = ⊥
IsApproved approved = Unit
IsApproved rejected = ⊥
IsApproved sent = Unit
IsApproved answered = ⊥
IsApproved not_performed = ⊥

-- a result can still come in
abbrev pub IsAwaited : CheckState → Type 0
IsAwaited proposed = ⊥
IsAwaited approved = Unit
IsAwaited rejected = ⊥
IsAwaited sent = Unit
IsAwaited answered = ⊥
IsAwaited not_performed = Unit

-- The arrows of the lifecycle.
pub data CheckMove (s : CheckState) : CheckState → Type 0 where
  approve : IsOpen s → CheckMove s approved
  reject : IsOpen s → CheckMove s rejected
  send : IsApproved s → CheckMove s sent
  answer : IsAwaited s → CheckMove s answered
  skip : IsAwaited s → CheckMove s not_performed

pub review-IsOpen : (s : CheckState) → may_act "check_review" s ≡ some true → IsOpen s
unfolding may_act
review-IsOpen proposed h = tt
review-IsOpen approved h = tt
review-IsOpen rejected h = tt
review-IsOpen _ h = cc

pub request-IsApproved : (s : CheckState) → may_act "request_sent" s ≡ some true → IsApproved s
unfolding may_act
request-IsApproved approved h = tt
request-IsApproved sent h = tt
request-IsApproved _ h = cc

pub execution-IsAwaited : (s : CheckState) → may_act "check_execution" s ≡ some true → IsAwaited s
unfolding may_act
execution-IsAwaited approved h = tt
execution-IsAwaited sent h = tt
execution-IsAwaited not_performed h = tt
execution-IsAwaited _ h = cc
