-- ===== src/Tests.antt =====
-- Concrete runs of the model.
pub mod Toy
pub mod Case
pub mod Readers
pub mod Rules
pub mod History
pub mod Context
pub mod Accounts
pub mod Advice
pub mod NextAction
