-- ===== src/Base/Text.antt =====
-- What the program uses of Go's strconv and strings.
pub mod Decimal
pub mod Fields
pub mod Trim
