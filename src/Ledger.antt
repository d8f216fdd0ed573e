-- ===== src/Ledger.antt =====
-- The case ledger (backend/app/ledger/model.py) and the lifecycles that it enforces
-- (backend/app/engine/states.py).
pub mod Entry
pub mod Platform
pub mod Payload
pub mod Request
pub mod Chain
pub mod Lifecycle
pub mod Confirmation
pub mod Validate
pub mod Links
pub mod Moves
pub mod Accepted
pub mod Rules
pub mod Progress
pub mod SiteResults
pub mod Scores
