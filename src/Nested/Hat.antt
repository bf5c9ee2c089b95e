-- ===== src/Nested/Hat.antt =====
-- The header's encryption and decryption, as all three operations use it.
use quicke_r.Prelude.{◌≡◌, refl, some, [], append-nil, Bytes, length, arith}
use quicke_r.Memory.{ok}
use quicke_r.Crypto.Evp.{Evp, EvpLaws}
use quicke_r.Crypto.Gcm.{gcm_encrypt, gcm_decrypt}
use quicke_r.Crypto.Gcm.Laws.{gcm_encrypt_lem}
use quicke_r.Crypto.Gcm.Open.{gcm_decrypt-seal}
use quicke_r.Nested.Layout.{CtHatData, IsMeta, meta_size, meta_bytes, length-meta_bytes}
use quicke_r.Nested.Encrypt.{fresh}

module _ {e : Evp} (l : EvpLaws e) (key iv : Bytes) (meta : CtHatData) (hk : length key ≡ 16)
    (hi : length iv ≡ 16) (hm : IsMeta meta) where
  open l use {seal, tag_of}

  -- The header is encrypted into a buffer of its size.
  pub seal_hat :
      gcm_encrypt e (meta_bytes meta) key iv 16 (fresh meta_size) 0
      ≡ ok (record {
        ciphertext_len = meta_size;
        buffer = seal key iv (meta_bytes meta);
        tag = tag_of key iv (meta_bytes meta);
      })
  seal_hat =
      let size = length-meta_bytes meta hm in
      let made =
        gcm_encrypt_lem e l key iv (meta_bytes meta) [] (fresh meta_size) [] 0 hk hi refl
          (omega arith) in
      simp (append-nil, size) at made

  -- And comes back.
  pub open_hat :
      gcm_decrypt e
        (seal key iv (meta_bytes meta))
        (tag_of key iv (meta_bytes meta))
        key
        iv
        16
        (fresh meta_size)
        0
      ≡ ok (some meta_size, meta_bytes meta)
  open_hat =
      let size = length-meta_bytes meta hm in
      let made =
        gcm_decrypt-seal e l key iv (meta_bytes meta) [] (fresh meta_size) [] 0 hk hi refl
          (omega arith) in
      simp (append-nil, size) at made
