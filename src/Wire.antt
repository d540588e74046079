-- ===== src/Wire.antt =====
-- The encodings of crates/gems-cluster: length-prefixed frames, on disk and between nodes.
pub mod Frame
pub mod Sealed
pub mod Record
pub mod Entries
pub mod RaftState
pub mod RaftMessage
pub mod GossipMessage
pub mod Receiving
mod Runs
