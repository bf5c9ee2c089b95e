-- ===== src/Nested/Encrypt.antt =====
-- AE_KeyGen and AE_Encrypt. What RAND_bytes writes is an argument.
pub mod Law
use quicke_r.Prelude.{ℕ, ◌+◌, ◌*◌, Bytes, length, replicate}
use quicke_r.Memory.{Run, ok, ◌>>=◌, peek, poke}
use quicke_r.Crypto.Evp.{Evp}
use quicke_r.Crypto.Gcm.{gcm_encrypt}
use quicke_r.Crypto.Ctr.{prg_aes_ctr}
use quicke_r.Nested.Layout.{
  key_len, iv_len, header_size, meta_size, layer_size, AeKey, CtHatData, CtHatDataEn, meta_bytes,
}

-- A buffer that was allocated and not written. No theorem reads such bytes before they are written.
abbrev pub fresh : ℕ → Bytes
fresh n = replicate n 0

unfoldable pub ae_keygen : Bytes → ℕ → AeKey
ae_keygen drawn t = record { key = drawn; k_t = t }

-- The four draws of AE_Encrypt, in order.
pub record EncryptDraws : Type 0 where
  pub payload_key : Bytes
  pub payload_iv : Bytes
  pub prg_seed : Bytes
  pub hat_iv : Bytes

module _ (e : Evp) where
  -- The header and the ciphertext buffer. The length that the C function also returns is read by
  -- the database loader alone.
  pub ae_encrypt : EncryptDraws → AeKey → Bytes → Bytes → ℕ → Run (CtHatDataEn × Bytes)
  ae_encrypt d ae_key message ciphertext len = do
    with_iv ← poke ciphertext 0 d.payload_iv
    plaintext ← peek message 0 len
    sealed ← gcm_encrypt e plaintext d.payload_key d.payload_iv iv_len with_iv header_size
    with_tag ← poke sealed.buffer 16 sealed.tag
    padded ← prg_aes_ctr e with_tag (header_size + len) d.prg_seed (ae_key.k_t * layer_size)
    hat ←
        gcm_encrypt e
          (meta_bytes (record {
            prg_seed = d.prg_seed;
            payload_key = d.payload_key;
            history_key = replicate key_len 0;
            ct_payload_length = sealed.ciphertext_len;
          }))
          ae_key.key d.hat_iv iv_len (fresh meta_size) 0
    ok (record { header = record { iv = d.hat_iv; tag = hat.tag }; body = hat.buffer }, padded.1)
