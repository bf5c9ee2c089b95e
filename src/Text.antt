-- ===== src/Text.antt =====
-- C strings as lists of bytes without their NUL: the splitting of src/common/common.c and of the
-- server, and the decimal numbers of atoi and sprintf.
pub mod Split
pub mod Decimal
pub mod Width
pub mod Int
pub mod Hex
