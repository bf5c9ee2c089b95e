-- ===== src/Crypto.antt =====
-- The cipher wrappers of src/cd_encryption (aes_gcm.c, aes_ctr.c) over OpenSSL's EVP interface.
pub mod Evp
pub mod Gcm
pub mod Ctr
