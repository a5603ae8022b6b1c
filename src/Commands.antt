-- ===== src/Commands.antt =====
-- The command handlers of internal/commands over the key-value interface that they use.
pub mod Store
pub mod Lookup
pub mod Arguments
pub mod Lists
pub mod Keyspace
pub mod Counters
mod Tests
