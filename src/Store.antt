-- ===== src/Store.antt =====
-- The append-only case store (backend/app/store/sqlite_store.py).
pub mod Tables
pub mod Append
pub mod Automatic
pub mod Written
pub mod History
pub mod Calls
pub mod Assert
