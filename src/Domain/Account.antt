-- ===== src/Domain/Account.antt =====
-- src/domain/account.rs: the state of one client's account and the operations on it. The checks
-- that a debug build makes are in Account/Check.antt.
pub mod State
pub mod Check
pub mod Operations
pub mod Settlement
pub mod Invariant
pub mod History
