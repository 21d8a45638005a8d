-- ===== src/Tests.antt =====
-- Concrete inputs on which the theorems are applied.
pub mod Sample
pub mod Hashes
pub mod Elections
pub mod Consensus
pub mod Draws
pub mod Transactions
pub mod Blocks
pub mod Nodes
pub mod Stores
pub mod Executions
pub mod Hosts
pub mod Locals
pub mod Errors
pub mod Runs
