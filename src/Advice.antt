-- ===== src/Advice.antt =====
-- What the program advises: which checks come next (backend/app/engine).
pub mod Catalog
pub mod Checks
pub mod Rank
pub mod Board
pub mod Triage
pub mod Assess
pub mod Compare
pub mod Decide
