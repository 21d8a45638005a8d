-- ===== src/Services/Blocks.antt =====
-- trinci-core-new/src/services/block_service.rs: the service that builds, checks and aligns blocks.
pub mod State
pub mod Execution
pub mod Verification
pub mod Alignment
pub mod Handlers
pub mod Kept
pub mod Attempts
pub mod Missing
pub mod Begun
pub mod Selection
pub mod Thread
pub mod Chained
pub mod Checked
pub mod Sound
pub mod Tip
pub mod Tally
pub mod Best
