-- ===== src/Utils.antt =====
-- utils.rs: variable-length integers, integer and float literals, case-insensitive bytes, quoted and
-- hexadecimal literals.
pub mod Varint
pub mod Ascii
pub mod Integer
pub mod Decimal
pub mod CaseInsensitive
pub mod Quoted
pub mod Hexed
