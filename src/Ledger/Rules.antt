-- ===== src/Ledger/Rules.antt =====
-- The rules that the ledger enforces on what it accepts.
pub mod Readers
pub mod Current
pub mod Trust
pub mod Review
pub mod Window
pub mod Conclude
pub mod Confirm
