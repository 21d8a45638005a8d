-- ===== src/Node.antt =====
-- trinci-node/src/artifacts: the blocks, confirmations, transactions and accounts of the node.
pub mod Identity
pub mod Account
pub mod Models
pub mod Transactions
pub mod Integrity
pub mod Coherent
pub mod Setters
pub mod Signed
pub mod Traits
pub mod Database
pub mod Storage
pub mod Stored
pub mod Errors
pub mod Machine
pub mod Local
pub mod Checks
pub mod Execution
pub mod Validators
pub mod Host
pub mod Runs
pub mod Requests
pub mod Comm
pub mod Fuel
pub mod Priced
