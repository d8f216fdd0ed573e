-- ===== src/Ledger/Links/Outcomes.antt =====
-- The links of outcomes, their reviews and recurrence checks.
use veyra_demo.Ledger.Links.{LinksKnown, link_rules}
use veyra_demo.Ledger.Platform.{Platform}
use veyra_demo.Ledger.Request.{Request}
use veyra_demo.Ledger.Validate.Outcomes.{outcome, outcome_review, recurrence_check}
use veyra_demo.Python.Result.{Ensures}
use veyra_demo.Python.Value.{Dict}

pub outcome-links :
    (p : Platform) (r : Request) (payload : Dict) → Ensures (LinksKnown r) (outcome p r payload)
unfolding outcome
outcome-links p r payload = search link_rules depth 36

pub outcome_review-links :
    (p : Platform) (r : Request) (payload : Dict)
    → Ensures (LinksKnown r) (outcome_review p r payload)
unfolding outcome_review
outcome_review-links p r payload = search link_rules depth 24

pub recurrence_check-links :
    (p : Platform) (r : Request) (payload : Dict)
    → Ensures (LinksKnown r) (recurrence_check p r payload)
unfolding recurrence_check
recurrence_check-links p r payload = search link_rules depth 24
