-- ===== src/Replication.antt =====
-- Replication (internal/replication): the backlog of writes and the hub that fans them out.
pub mod Backlog
pub mod Hub
mod Tests
