-- ===== src/Nested/Casts.antt =====
-- The bytes of a ct_hat_data_en and of an AE_key, cast back.
use quicke_r.Prelude.{
  ℕ, ◌≡◌, refl, sym, [], ◌++◌, append_assoc, append-nil, Bytes, length, length-append, arith,
}
use quicke_r.Memory.{ok, ◌>>=◌, peek}
use quicke_r.Memory.Regions.{peek_at}
use quicke_r.Crypto.Evp.{Evp, EvpLaws}
use quicke_r.Nested.Layout.{
  CtHatDataEn, hat_bytes, hat_of_bytes, header_bytes, header_of_bytes, meta_bytes,
  length-meta_bytes,
}
use quicke_r.Nested.Update.Sizes.{length-hat_of}
use quicke_r.Nested.Layers.{Holds}

hat_of_parts :
    (iv tag body : Bytes)
    → length iv ≡ 16
    → length tag ≡ 16
    → length body ≡ 52
    → hat_of_bytes ((iv ++ tag) ++ body)
      ≡ ok (record { header = record { iv = iv; tag = tag }; body = body })
unfolding hat_of_bytes header_of_bytes
hat_of_parts iv tag body hi ht hb =
    let first = peek_at [] iv (tag ++ body) 0 16 refl (sym hi) in
    let second = peek_at iv tag body 16 16 (sym hi) (sym ht) in
    let third = peek_at (iv ++ tag) body [] 32 52 (omega (arith, length-append iv tag)) (sym hb) in
    let third' : peek (iv ++ (tag ++ body)) 32 52 ≡ ok body =
      simp (append_assoc, append-nil) at third in
    rw (append_assoc iv tag body, first, ◌>>=◌, second, third') refl

-- A header that a ciphertext holds under a key is cast back from its bytes.
pub hat_of_bytes-hat_bytes :
    {e : Evp} (l : EvpLaws e) (key : Bytes) (hat : CtHatDataEn) (ct m : Bytes) (n room : ℕ)
    → Holds l key hat ct m n room
    → hat_of_bytes (hat_bytes hat) ≡ ok hat
unfolding hat_bytes header_bytes
hat_of_bytes-hat_bytes l key hat ct m n room h = rw h.hat_is (
    hat_of_parts h.hat_iv (l.tag_of key h.hat_iv (meta_bytes h.meta))
      (l.seal key h.hat_iv (meta_bytes h.meta)) h.hat_iv_16
      (l.length-tag_of key h.hat_iv (meta_bytes h.meta))
      (omega (
        arith,
        l.length-seal key h.hat_iv (meta_bytes h.meta),
        length-meta_bytes h.meta h.well_formed,
      )))

pub length-hat_bytes :
    {e : Evp} (l : EvpLaws e) (key : Bytes) (hat : CtHatDataEn) (ct m : Bytes) (n room : ℕ)
    → Holds l key hat ct m n room
    → length (hat_bytes hat) ≡ 84
length-hat_bytes l key hat ct m n room h =
    rw h.hat_is (length-hat_of l key h.hat_iv h.meta h.well_formed h.hat_iv_16)
