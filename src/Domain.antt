-- ===== src/Domain.antt =====
-- src/domain: amounts, transactions and accounts.
pub mod Amount
pub mod Transaction
pub mod Account
