-- ===== src/Propose.antt =====
-- raftstore/peer.go: what a leader decides before it proposes or reads.
pub mod Policy
pub mod ReadLocal
pub mod Membership
pub mod Healthy
pub mod Reads
pub mod ReadsCleared
