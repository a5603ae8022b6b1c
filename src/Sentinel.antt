-- ===== src/Sentinel.antt =====
-- The sentinel: internal/sentinel and cmd/gedis/sentinel_auto.go.
pub mod Address
pub mod Registry
pub mod Vote
pub mod Probe
pub mod Select
pub mod Failover
pub mod Election
pub mod Down
pub mod Selection
pub mod Promotion
pub mod Switching
pub mod Answer
mod Tests
