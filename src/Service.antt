-- ===== src/Service.antt =====
-- src/service: the transaction processing engine.
pub mod Error
pub mod PendingTransaction
pub mod State
pub mod Engine
pub mod Sequential
pub mod Termination
pub mod Reconciliation
pub mod Snapshot
