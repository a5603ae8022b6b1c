-- ===== src/Datastruct.antt =====
-- The encodings of internal/datastruct, in which the storage keeps its values.
pub mod Uvarint
pub mod Entry
pub mod Strings
pub mod ListCodec
pub mod HashCodec
pub mod SetCodec
mod Tests
