-- ===== src/Cluster.antt =====
-- The cluster's slots and topology: internal/cluster.
pub mod Slot
pub mod Topology
pub mod Migration
pub mod Persist
mod Tests
