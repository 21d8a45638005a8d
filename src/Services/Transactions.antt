-- ===== src/Services/Transactions.antt =====
-- trinci-core-new/src/services/transaction_service.rs.
pub mod Pool
pub mod Handlers
pub mod Invariant
pub mod Collected
