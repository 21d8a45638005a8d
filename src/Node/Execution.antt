-- ===== src/Node/Execution.antt =====
-- trinci-node/src/services/wasm_service.rs: the execution of transactions and blocks.
pub mod State
pub mod Units
pub mod Bulks
pub mod Roots
pub mod Transactions
pub mod Blocks
pub mod Handlers
pub mod Triples
pub mod Rollback
pub mod Saves
pub mod Atomic
pub mod Failed
pub mod Ran
pub mod Complete
pub mod Unfueled
pub mod Burnt
pub mod Settled
pub mod Agreement
pub mod Consolidated
