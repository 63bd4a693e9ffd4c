-- ===== src/Text.antt =====
-- The functions of the standard library on texts that the program uses, over lists of bytes.
pub mod Strings
pub mod Decimal
pub mod Base64
