-- ===== src/Services/Consensus.antt =====
-- trinci-core-new/src/services/consensus_service.rs.
pub mod State
pub mod Proposals
pub mod Voting
pub mod Leader
pub mod Rounds
pub mod Handlers
pub mod Keeps
pub mod Frame
pub mod Retrieval
pub mod Handled
pub mod WellFormed
pub mod Kept
pub mod Invariant
pub mod Quorum
pub mod Votes
pub mod Sorted
pub mod Recorded
pub mod Elected
