-- ===== src/Protocol.antt =====
-- RESP2/RESP3 values, their encoding and their decoding (internal/protocol).
pub mod Value
pub mod Encode
pub mod Reader
pub mod Decode
pub mod Wellformed
pub mod RoundTrip
pub mod Totality
pub mod Panics
pub mod Hello
mod Tests
