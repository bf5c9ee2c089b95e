-- ===== src/Nested/Decrypt.antt =====
-- decrypt_last_step and AE_Decrypt.
pub mod LastStep
pub mod Law
use Prim.Native.Nat.{bit_or}
use mathlib.Core.List.{foldl}
use quicke_r.Prelude.{
  ℕ, zero, suc, ◌+◌, ◌-◌, ◌^◌, Bool, true, false, Option, none, some, [], ◌∷◌, Bytes, length, drop,
  ◌==◌, ==_refl, ltb, leb, le→leb, ◌≤◌, ◌≡◌, refl, if◌then◌else◌,
}
use quicke_r.Memory.{Run, ok, fault, ◌>>=◌, peek}
use quicke_r.Crypto.Evp.{Evp}
use quicke_r.Crypto.Gcm.{gcm_decrypt}
use quicke_r.Crypto.Ctr.{prg_aes_ctr}
use quicke_r.Nested.Layout.{
  key_len, iv_len, header_size, meta_size, layer_size, AeKey, CtHatData, CtHatDataEn, meta_of_bytes,
}
use quicke_r.Nested.Encrypt.{fresh}

-- `key_and`, the bitwise or of the history key's bytes.
unfoldable pub key_and : Bytes → ℕ
key_and = foldl bit_or 0

-- What a return of `int` says: 0, or -1.
pub data Status : Type 0 where
  success failure : Status

-- `decrypt_payload_len != length`, with -1 as `none`.
unfoldable pub has_length : Option ℕ → ℕ → Bool
has_length none n = false
has_length (some k) n = k == n

pub has_length_self : (n : ℕ) → has_length (some n) n ≡ true
unfolding has_length
has_length_self n = ==_refl n

-- `length` leaves room for a layer.
unfoldable pub has_layer : ℕ → Bool
has_layer len = leb layer_size len

pub has_layer_of_le : (len : ℕ) → layer_size ≤ len → has_layer len ≡ true
unfolding has_layer
has_layer_of_le len h = le→leb layer_size len h

module _ (e : Evp) where
  -- The result and the message buffer. The two scratch buffers change roles in the recursive call,
  -- whose result the C code drops. Each level takes off one layer; a length too short for one
  -- would read before the buffer or hand OpenSSL a negative length, here a fault. `depth` bounds
  -- the recursion.
  pub decrypt_last_step : ℕ → Bytes → Bytes → Bytes → ℕ → Bytes → Bytes → Run (Status × Bytes)
  decrypt_last_step zero ct_payload payload_key history_key len message scratch = fault
  decrypt_last_step (suc depth) ct_payload payload_key history_key len message scratch = do
    iv ← peek ct_payload 0 iv_len
    tag ← peek ct_payload 16 16
    body ← peek ct_payload header_size len
    let core : Run (Status × Bytes) = do
      r ← gcm_decrypt e body tag payload_key iv iv_len message 0
      ok ((if has_length r.0 len then success else failure), r.1)
    let layered : Run (Status × Bytes) = do
      r ← gcm_decrypt e body tag payload_key iv iv_len scratch 0
      let inside : Run (Status × Bytes) = do
        history_iv ← peek r.1 (len - 64) iv_len
        history_tag ← peek r.1 (len - 48) 16
        history ← peek r.1 (len - 32) 32
        h ← gcm_decrypt e history history_tag history_key history_iv iv_len (fresh 32) 0
        let next : Run (Status × Bytes) = do
          inner_key ← peek h.1 0 key_len
          inner_history ← peek h.1 16 key_len
          inner ←
              decrypt_last_step depth r.1 inner_key inner_history (len - layer_size) message
                ct_payload
          ok (success, inner.1)
        if has_length h.0 32 then next else ok (failure, message)
      if has_length r.0 len
          then (if has_layer len then inside else fault)
          else ok (failure, message)
    if key_and history_key == 0 then core else layered

-- The loop that compares the pads: it stops at the first difference, and reads no further.
pub pads_agree : Bytes → Bytes → Run Bool
pads_agree [] ct_pad = ok true
pads_agree (g ∷ gs) [] = fault
pads_agree (g ∷ gs) (c ∷ cs) = elim (g == c) [ true ↦ pads_agree gs cs | false ↦ ok false ]

module _ (e : Evp) where
  -- Step 4: the payload is copied, and decrypted into the message.
  decrypt_payload : CtHatData → Bytes → Bytes → Run Bytes
  decrypt_payload meta ciphertext message = do
    payload ← peek ciphertext 0 (meta.ct_payload_length + header_size)
    r ←
        decrypt_last_step e (suc meta.ct_payload_length) payload meta.payload_key meta.history_key
          meta.ct_payload_length message (fresh meta.ct_payload_length)
    ok r.1

  -- Steps 2 and 3. A stored length of 2^31 or more is a negative `int`, and the pad then starts
  -- before the buffer.
  decrypt_checked : CtHatData → Bytes → Bytes → ℕ → Run Bytes
  unfolding decrypt_payload
  decrypt_checked meta ciphertext message ctx_length =
      if leb (2 ^ 31) meta.ct_payload_length
      then fault
      else if ltb ctx_length meta.ct_payload_length
      then ok message
      else do
        let pad_len = ctx_length - meta.ct_payload_length
        gen ← prg_aes_ctr e (fresh pad_len) 0 meta.prg_seed pad_len
        agree ← pads_agree gen.1 (drop (header_size + meta.ct_payload_length) ciphertext)
        if agree then decrypt_payload meta ciphertext message else ok message

  -- The message buffer after AE_Decrypt, which returns nothing: on each failure it is left as far
  -- as it was written.
  pub ae_decrypt : AeKey → CtHatDataEn → Bytes → Bytes → ℕ → Run Bytes
  unfolding decrypt_checked
  ae_decrypt ae_key hat ciphertext message ctx_length = do
    r ← gcm_decrypt e hat.body hat.header.tag ae_key.key hat.header.iv iv_len (fresh meta_size) 0
    let checked : Run Bytes = do
      meta ← meta_of_bytes r.1
      decrypt_checked meta ciphertext message ctx_length
    if has_length r.0 meta_size then checked else ok message
