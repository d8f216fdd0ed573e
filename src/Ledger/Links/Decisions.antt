-- ===== src/Ledger/Links/Decisions.antt =====
-- The links of decisions, proposals, dispatch preparations and actions.
use veyra_demo.Ledger.Entry.{Entry}
use veyra_demo.Ledger.Links.{IsEntryId, LinksKnown, found-Known, link_rules}
use veyra_demo.Ledger.Platform.{Platform}
use veyra_demo.Ledger.Request.{Request, Validated}
use veyra_demo.Ledger.Validate.Decisions.{
  action, decision, decision_basis, decision_proposal, dispatch_preparation, follows_proposal,
  follows_recommendation, id_link, proposal_check,
}
use veyra_demo.Prelude.{All, Option, all_cons, all_nil, arith, none, some, ◌≡◌}
use veyra_demo.Python.Result.{Ensures, Ensures-ok, ok}
use veyra_demo.Python.Value.{Dict, get}

proposal_check-Known :
    (r : Request) (payload : Dict) (proposal : Entry) (checked : Option Entry)
    → proposal_check r payload proposal ≡ ok checked
    → All (IsEntryId r.entries) (id_link checked)
unfolding proposal_check
proposal_check-Known r payload proposal none h = all_nil
proposal_check-Known r payload proposal (some e) h =
    all_cons (found-Known r (get "check_id" payload) "decision_check" e (ground arith)) all_nil

follows_proposal-links :
    (r : Request) (payload : Dict) → Ensures (LinksKnown r) (follows_proposal r payload)
unfolding follows_proposal
follows_proposal-links r payload = search (link_rules, proposal_check-Known) depth 24

follows_recommendation-links :
    (r : Request) (payload : Dict) → Ensures (LinksKnown r) (follows_recommendation r payload)
unfolding follows_recommendation
follows_recommendation-links r payload = search link_rules depth 24

decision_basis-Known :
    (r : Request) (payload : Dict) (v : Validated)
    → decision_basis r payload ≡ ok v
    → All (IsEntryId r.entries) v.1
unfolding decision_basis
decision_basis-Known r payload v h = Ensures-ok basis h
  where
    basis : Ensures (LinksKnown r) (decision_basis r payload)
    basis = search (link_rules, follows_proposal-links, follows_recommendation-links)

pub decision-links :
    (p : Platform) (r : Request) (payload : Dict) → Ensures (LinksKnown r) (decision p r payload)
unfolding decision
decision-links p r payload = search (link_rules, decision_basis-Known) depth 24

pub decision_proposal-links :
    (p : Platform) (r : Request) (payload : Dict)
    → Ensures (LinksKnown r) (decision_proposal p r payload)
unfolding decision_proposal
decision_proposal-links p r payload = search link_rules depth 30

pub dispatch_preparation-links :
    (p : Platform) (r : Request) (payload : Dict)
    → Ensures (LinksKnown r) (dispatch_preparation p r payload)
unfolding dispatch_preparation
dispatch_preparation-links p r payload = search link_rules depth 24

pub action-links :
    (p : Platform) (r : Request) (payload : Dict) → Ensures (LinksKnown r) (action p r payload)
unfolding action
action-links p r payload = search link_rules depth 24
