-- ===== src/Hsm/Wrap.antt =====
-- hsm_aes_encrypt and hsm_aes_decrypt of src/hsm_encryption/hsm_aes_gcm.c, and their calls as the
-- interface that src/actions uses.
use quicke_r.Prelude.{ℕ, ◌+◌, [], ◌∷◌, Bytes, length, take, drop, replicate, ◌==◌, if◌then◌else◌}
use quicke_r.Memory.{Run, ok, abort, ◌>>=◌, poke, peek}
use quicke_r.Hsm.Pkcs11.{Pkcs11}
use quicke_r.Hsm.{Hsm}

-- AES_GCM_IV_SIZE
abbrev pub iv_size : ℕ
iv_size = 12

module _ (p : Pkcs11) where
  open p use {Session, encrypt_init, encrypt_size, encrypt, decrypt_init, decrypt_size, decrypt}

  -- An initialisation that failed: `exit(0)` on 130.
  unfoldable pub init_failed : ℕ → Session → Run (ℕ × Bytes × Session)
  init_failed rv s = if rv == 130 then abort else ok (rv, [], s)

  -- The part behind the question for the size. The iv and the output are put into the buffer
  -- before the result is looked at.
  unfoldable pub encrypt_sized : Bytes → ℕ → Session → Run (ℕ × Bytes × Session)
  encrypt_sized plaintext size s = do
    let r = encrypt plaintext (size + iv_size) s
    iv ← poke (replicate iv_size 0) 0 r.1.0
    output ← poke (replicate (size + iv_size) 0) iv_size r.1.1
    ciphertext ← poke output 0 iv
    ok (r.0, take (length r.1.1 + iv_size) ciphertext, r.2)

  -- The CK_RV, the bytes at `*ciphertext`, of which there are `*ciphertext_length`, and the
  -- session.
  unfoldable pub hsm_aes_encrypt : ℕ → Bytes → Session → Run (ℕ × Bytes × Session)
  unfolding init_failed encrypt_sized
  hsm_aes_encrypt wrapping_key plaintext s =
      let init = encrypt_init wrapping_key s in
      let asked = encrypt_size plaintext init.1 in
      if init.0 == 0
      then if asked.0 == 0
        then encrypt_sized plaintext asked.1 asked.2
        else ok (asked.0, [], asked.2)
      else init_failed init.0 init.1

  module _ (alloc : ℕ → Bytes) where
    -- The buffer has the size that was given, not that of the output, and so has the result.
    unfoldable pub decrypt_sized : Bytes → ℕ → Session → Run (ℕ × Bytes × Session)
    decrypt_sized text size s = do
      let r = decrypt text size s
      decrypted ← poke (alloc (size + 1)) 0 r.1
      let finished : Run (ℕ × Bytes × Session) = do
        ended ← poke decrypted size (0 ∷ [])
        ok (r.0, take size ended, r.2)
      if r.0 == 0 then finished else ok (r.0, [], r.2)

    -- The iv is read in front of the ciphertext.
    unfoldable pub hsm_aes_decrypt : ℕ → Bytes → Session → Run (ℕ × Bytes × Session)
    unfolding init_failed decrypt_sized
    hsm_aes_decrypt wrapping_key ciphertext s = do
      iv ← peek ciphertext 0 iv_size
      let text = drop iv_size ciphertext
      let init = decrypt_init wrapping_key iv s
      let asked = decrypt_size text init.1
      if init.0 == 0
          then if asked.0 == 0
            then decrypt_sized text asked.1 asked.2
            else ok (asked.0, [], asked.2)
          else init_failed init.0 init.1

    unfoldable pub hsm_of : Hsm
    unfolding hsm_aes_encrypt hsm_aes_decrypt
    hsm_of = record {
      Session = Session;
      encrypt = hsm_aes_encrypt;
      decrypt = hsm_aes_decrypt;
      generate = p.generate_key;
      destroy = p.destroy_object;
      reset = p.reset;
    }
