-- ===== src/Templates.antt =====
-- include/Templates: the bit set and the bit operators of an enumeration, and properties.
pub mod EnumBitset
pub mod EnumOperations
pub mod Property
