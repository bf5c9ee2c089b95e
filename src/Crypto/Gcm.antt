-- ===== src/Crypto/Gcm.antt =====
-- src/cd_encryption/aes_gcm.c: gcm_encrypt, gcm_encrypt_2, gcm_encrypt_4 and gcm_decrypt, and the
-- copy of the file beside the server. An output pointer is a buffer and an offset into it. A
-- failing EVP call ends in `handleErrors`, which aborts.
pub mod Laws
pub mod Open
pub mod Whole
use quicke_r.Prelude.{ℕ, ◌+◌, Option, none, some, Bytes, length}
use quicke_r.Memory.{Run, ok, ◌>>=◌, or_abort, poke}
use quicke_r.Crypto.Evp.{Evp, aes_128_gcm}

-- What an encryption returns and writes: `ciphertext_len`, the buffer, the tag.
pub record Sealed : Type 0 where
  pub ciphertext_len : ℕ
  pub buffer : Bytes
  pub tag : Bytes

-- The end of `gcm_decrypt`, on the result of EVP_DecryptFinal_ex.
finish_decrypt : Option Bytes → ℕ → Bytes → ℕ → Run (Option ℕ × Bytes)
finish_decrypt none len buf at = ok (none, buf)
finish_decrypt (some out) len buf at = do buf' ← poke buf at out; ok (some len, buf')

module _ (e : Evp) where
  -- The context of an encryption: the first four calls of each wrapper.
  encrypt_start : Bytes → Bytes → ℕ → Run e.Ctx
  encrypt_start key iv iv_len = do
    c0 ← or_abort e.ctx_new
    c1 ← or_abort (e.encrypt_init c0 (some aes_128_gcm) none none)
    c2 ← or_abort (e.set_ivlen c1 iv_len)
    or_abort (e.encrypt_init c2 none (some key) (some iv))

  -- EVP_EncryptUpdate of one plaintext into the buffer at `at`: `len`, the buffer, the context.
  encrypt_chunk : e.Ctx → Bytes → Bytes → ℕ → Run (ℕ × Bytes × e.Ctx)
  encrypt_chunk c plaintext buf at = do
    r ← or_abort (e.encrypt_update c plaintext)
    buf' ← poke buf at r.0
    ok (length r.0, buf', r.1)

  -- EVP_EncryptFinal_ex at `at`, then the tag.
  encrypt_finish : e.Ctx → ℕ → Bytes → ℕ → Run Sealed
  encrypt_finish c ciphertext_len buf at = do
    r ← or_abort (e.encrypt_final c)
    buf' ← poke buf at r.0
    tag ← or_abort (e.get_tag r.1 16)
    ok (record { ciphertext_len = ciphertext_len + length r.0; buffer = buf'; tag = tag })

  pub gcm_encrypt : Bytes → Bytes → Bytes → ℕ → Bytes → ℕ → Run Sealed
  unfolding encrypt_start encrypt_chunk encrypt_finish
  gcm_encrypt plaintext key iv iv_len buf off = do
    c ← encrypt_start key iv iv_len
    r ← encrypt_chunk c plaintext buf off
    encrypt_finish r.2 r.0 r.1 (off + r.0)

  -- The final call's offset is the length of the second chunk alone, `ciphertext + len`.
  pub gcm_encrypt_2 : Bytes → Bytes → Bytes → Bytes → ℕ → Bytes → ℕ → Run Sealed
  unfolding encrypt_start encrypt_chunk encrypt_finish
  gcm_encrypt_2 plaintext_1 plaintext_2 key iv iv_len buf off = do
    c ← encrypt_start key iv iv_len
    r1 ← encrypt_chunk c plaintext_1 buf off
    r2 ← encrypt_chunk r1.2 plaintext_2 r1.1 (off + r1.0)
    encrypt_finish r2.2 (r1.0 + r2.0) r2.1 (off + r2.0)

  -- As above: the final call's offset is the length of the fourth chunk alone.
  pub gcm_encrypt_4 : Bytes → Bytes → Bytes → Bytes → Bytes → Bytes → ℕ → Bytes → ℕ → Run Sealed
  unfolding encrypt_start encrypt_chunk encrypt_finish
  gcm_encrypt_4 plaintext_1 plaintext_2 plaintext_3 plaintext_4 key iv iv_len buf off = do
    c ← encrypt_start key iv iv_len
    r1 ← encrypt_chunk c plaintext_1 buf off
    r2 ← encrypt_chunk r1.2 plaintext_2 r1.1 (off + r1.0)
    r3 ← encrypt_chunk r2.2 plaintext_3 r2.1 (off + (r1.0 + r2.0))
    r4 ← encrypt_chunk r3.2 plaintext_4 r3.1 (off + (r1.0 + r2.0 + r3.0))
    encrypt_finish r4.2 (r1.0 + r2.0 + r3.0 + r4.0) r4.1 (off + r4.0)

  -- The result is `plaintext_len`, or `none` for -1, and the output buffer: the plaintext is
  -- written before the tag is checked, and stays when the check fails.
  pub gcm_decrypt : Bytes → Bytes → Bytes → Bytes → ℕ → Bytes → ℕ → Run (Option ℕ × Bytes)
  unfolding finish_decrypt
  gcm_decrypt ciphertext tag key iv iv_len buf off = do
    c0 ← or_abort e.ctx_new
    c1 ← or_abort (e.decrypt_init c0 (some aes_128_gcm) none none)
    c2 ← or_abort (e.set_ivlen c1 iv_len)
    c3 ← or_abort (e.decrypt_init c2 none (some key) (some iv))
    r ← or_abort (e.decrypt_update c3 ciphertext)
    buf' ← poke buf off r.0
    c4 ← or_abort (e.set_tag r.1 tag)
    finish_decrypt (e.decrypt_final c4) (length r.0) buf' (off + length r.0)
