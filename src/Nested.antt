-- ===== src/Nested.antt =====
-- src/cd_encryption/AE_Nested_AES.c, updatable encryption: the structures, the five operations and
-- what a chain of them does. database/newSimpleServer/AE_Nested_AES.c has the same operations.
pub mod Layout
pub mod Encrypt
pub mod Decrypt
pub mod Update
pub mod Layers
pub mod Hat
pub mod Chain
pub mod Token
pub mod Casts
