-- ===== src/Services.antt =====
-- trinci-core-new/src/services: the services, each a state and its message handlers.
pub mod Blocks
pub mod Consensus
pub mod Covered
pub mod Handover
pub mod Drand
pub mod Transactions
