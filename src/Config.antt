-- ===== src/Config.antt =====
-- demo/config.go: draft versions, signature algorithms and trust anchor IDs.
pub mod Base128
pub mod Version
pub mod Algorithm
pub mod AnchorId
pub mod Structs
pub mod FromText
pub mod Names
