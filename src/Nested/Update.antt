-- ===== src/Nested/Update.antt =====
-- AE_ReKeyGen, by the owner of the keys, and AE_ReEncrypt, by the server. What RAND_bytes writes
-- is an argument.
pub mod Rekey
pub mod Sizes
pub mod Law
pub mod Reencrypt
use quicke_r.Prelude.{
  ℕ, ◌+◌, ◌*◌, ◌-◌, ◌^◌, Option, none, some, true, false, Bytes, ◌==◌, ltb, leb, if◌then◌else◌,
}
use quicke_r.Memory.{Run, ok, fault, ◌>>=◌, peek, poke}
use quicke_r.Crypto.Evp.{Evp}
use quicke_r.Crypto.Gcm.{gcm_encrypt, gcm_encrypt_2, gcm_encrypt_4, gcm_decrypt}
use quicke_r.Crypto.Ctr.{prg_aes_ctr}
use quicke_r.Nested.Layout.{
  key_len, iv_len, header_size, meta_size, AeKey, CtHatData, CtHatDataEn, DeltaToken, meta_bytes,
  meta_of_bytes, header_bytes,
}
use quicke_r.Nested.Encrypt.{fresh}
use quicke_r.Nested.Decrypt.{has_length}

-- The five draws of AE_ReKeyGen, in order.
pub record RekeyDraws : Type 0 where
  pub history_key : Bytes
  pub history_iv : Bytes
  pub payload_key : Bytes
  pub prg_seed : Bytes
  pub hat_iv : Bytes

-- What AE_ReEncrypt returns, -1 as `none`, and its two outputs.
pub record Reencrypted : Type 0 where
  pub ret : Option ℕ
  pub hat : CtHatDataEn
  pub ciphertext : Bytes

module _ (e : Evp) where
  -- Steps 2 and 3: the old keys go into the history under a new history key, and the new keys
  -- into a new header under the new key.
  rekey : RekeyDraws → CtHatData → AeKey → Run DeltaToken
  rekey d old_meta ae_key2 = do
    history ←
        gcm_encrypt_2 e old_meta.payload_key old_meta.history_key d.history_key d.history_iv iv_len
          (fresh 32) 0
    hat ←
        gcm_encrypt e
          (meta_bytes (record {
            prg_seed = d.prg_seed;
            payload_key = d.payload_key;
            history_key = d.history_key;
            ct_payload_length =
                old_meta.ct_payload_length + 2 * header_size + history.ciphertext_len;
          }))
          ae_key2.key d.hat_iv iv_len (fresh meta_size) 0
    ok (record {
      ct_hat_data_header = record { iv = d.hat_iv; tag = hat.tag };
      ct_hat = hat.buffer;
      ct_hat_history_header = record { iv = d.history_iv; tag = history.tag };
      ct_hat_history = history.buffer;
      len = old_meta.ct_payload_length;
      key_ae = d.payload_key;
      prg_seed = d.prg_seed;
    })

  -- `none` is -1: the old header did not decrypt, and the token is not written.
  pub ae_rekeygen : RekeyDraws → AeKey → AeKey → CtHatDataEn → Run (Option DeltaToken)
  unfolding rekey
  ae_rekeygen d ae_key1 ae_key2 hat = do
    r ← gcm_decrypt e hat.body hat.header.tag ae_key1.key hat.header.iv iv_len (fresh meta_size) 0
    elim (has_length r.0 meta_size) [
      | false ↦ ok none
      | true ↦ do old_meta ← meta_of_bytes r.1; delta ← rekey d old_meta ae_key2; ok (some delta)
    ]

  -- The pad and the header, after the payload has been written. A payload longer than the length
  -- asked for gives the pad generator a negative size, here a fault.
  reencrypt_pad : DeltaToken → ℕ → Bytes → ℕ → Run Reencrypted
  reencrypt_pad delta ct_payload_length ciphertext2 ctx_length =
      if ltb ctx_length ct_payload_length then fault else do
        padded ←
            prg_aes_ctr e ciphertext2 (header_size + ct_payload_length) delta.prg_seed
              (ctx_length - ct_payload_length)
        ok (record {
          ret = some ctx_length;
          hat = record { header = delta.ct_hat_data_header; body = delta.ct_hat };
          ciphertext = padded.1;
        })

  -- The outputs `hat2` and `ciphertext2` are the caller's buffers, which keep what they held where
  -- the code returns -1 before it writes them. The length of a token is an int: one of 2 ^ 31 or more
  -- is negative, passes the test, and is given to EVP_EncryptUpdate, here a fault. `ctx_length` is an
  -- int that is not negative.
  pub ae_reencrypt : Bytes → DeltaToken → Bytes → CtHatDataEn → Bytes → ℕ → Run Reencrypted
  unfolding reencrypt_pad
  ae_reencrypt drawn_iv delta ciphertext1 hat2 ciphertext2 ctx_length =
      if ltb ctx_length delta.len
      then (if leb (2 ^ 31) delta.len
          then fault
          else ok (record { ret = none; hat = hat2; ciphertext = ciphertext2 }))
      else do
        with_iv ← poke ciphertext2 0 drawn_iv
        header1 ← peek ciphertext1 0 header_size
        payload1 ← peek ciphertext1 header_size delta.len
        sealed ←
            gcm_encrypt_4 e header1 payload1 (header_bytes delta.ct_hat_history_header)
              delta.ct_hat_history delta.key_ae drawn_iv iv_len with_iv header_size
        with_tag ← poke sealed.buffer 16 sealed.tag
        elim (sealed.ciphertext_len == header_size + delta.len + header_size + 2 * key_len) [
          | true ↦ reencrypt_pad delta sealed.ciphertext_len with_tag ctx_length
          | false ↦ ok (record { ret = none; hat = hat2; ciphertext = with_tag })
        ]
