-- ===== src/Engine.antt =====
-- The rules of the investigation engine that the ledger consults (backend/app/engine/).
pub mod Outcomes
