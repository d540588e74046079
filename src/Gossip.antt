-- ===== src/Gossip.antt =====
-- crates/gems-cluster/src/gossip.rs: membership and failure detection.
pub mod State
pub mod Queue
pub mod Merge
pub mod Probe
pub mod Core
pub mod Order
pub mod Ascent
pub mod Soundness
pub mod Aging
pub mod Ticking
pub mod Detection
pub mod Deadline
pub mod Refutation
pub mod Retransmission
pub mod Queued
mod Runs
