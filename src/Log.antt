-- ===== src/Log.antt =====
-- demo/log.go: Merkle trees, subtrees of them, and inclusion and consistency proofs.
pub mod Hash
pub mod Tree
pub mod Mth
pub mod Subtree
pub mod Inclusion
pub mod Consistency
pub mod Interval
pub mod Total
