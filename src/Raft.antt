-- ===== src/Raft.antt =====
-- crates/gems-cluster/src/raft.rs: the consensus state machine.
pub mod State
pub mod Sending
pub mod Election
pub mod Commit
pub mod Follower
pub mod Core
pub mod Terms
pub mod Ballots
pub mod Voting
pub mod Receiving
pub mod Cluster
pub mod Reconcile
pub mod Redelivery
pub mod Quorum
pub mod Draining
pub mod Appending
pub mod Overrun
mod Runs
