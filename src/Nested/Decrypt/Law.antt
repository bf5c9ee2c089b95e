-- ===== src/Nested/Decrypt/Law.antt =====
-- AE_Decrypt gives back what the header and the ciphertext hold.
use quicke_r.Prelude.{
  ℕ, suc, ◌+◌, ◌*◌, ◌-◌, ◌^◌, ◌≡◌, refl, sym, some, true, [], ◌∷◌, ◌++◌, append-nil, Bytes, length,
  drop-append, arith, lt→leb, le→ltb, length-replicate,
}
use quicke_r.Memory.{ok}
use quicke_r.Memory.Regions.{peek_at}
use quicke_r.Crypto.Evp.{Evp, EvpLaws}
use quicke_r.Crypto.Ctr.{prg_aes_ctr}
use quicke_r.Crypto.Ctr.Laws.{pad, prg_aes_ctr_lem}
use quicke_r.Nested.Layout.{layer_size, AeKey, CtHatDataEn, meta_of_bytes-meta_bytes}
use quicke_r.Nested.Encrypt.{fresh}
use quicke_r.Nested.Decrypt.{
  pads_agree, has_length_self, decrypt_payload, decrypt_checked, ae_decrypt,
}
use quicke_r.Nested.Decrypt.LastStep.{decrypt_last_step_lem}
use quicke_r.Nested.Layers.{Holds, length-Layered}
use quicke_r.Nested.Hat.{open_hat}

pub pads_agree_self : (xs : Bytes) → pads_agree xs xs ≡ ok true
unfolding pads_agree
pads_agree_self [] = refl
pads_agree_self (x ∷ xs) = ground (arith, pads_agree_self xs)

module _ {e : Evp} (l : EvpLaws e) where
  -- The pad generated for the check.
  gen_pad :
      (seed : Bytes) (size : ℕ)
      → length seed ≡ 16
      → prg_aes_ctr e (fresh size) 0 seed size ≡ ok (some size, pad e l seed size)
  gen_pad seed size h =
      let made =
        prg_aes_ctr_lem e l seed [] (fresh size) [] 0 size h refl
          (length-replicate {A = ℕ} size 0) in
      simp append-nil at made

  module _ {key : Bytes} {hat : CtHatDataEn} {ct m : Bytes} {n room : ℕ}
      (holds : Holds l key hat ct m n room) (m0 rest : Bytes) (same_m : length m0 ≡ length m) where
    open holds use {meta, payload, length_is, well_formed}

    size : length payload ≡ 32 + meta.ct_payload_length
    size = omega (arith, length-Layered l holds.layers, length_is)

    opened :
        decrypt_payload e meta (payload ++ pad e l meta.prg_seed room) (m0 ++ rest) ≡ ok (m ++ rest)
    unfolding decrypt_payload
    opened =
        let last =
          decrypt_last_step_lem l holds.layers (suc meta.ct_payload_length) meta.ct_payload_length
            [] m0 rest (fresh meta.ct_payload_length) (omega (arith, length_is)) length_is same_m
            (omega (arith, length-replicate {A = ℕ} meta.ct_payload_length 0)) in
        rw (
          peek_at [] payload (pad e l meta.prg_seed room) 0 (meta.ct_payload_length + 32) refl
              (omega (arith, size)),
          simp append-nil at last,
        )

    checked :
        decrypt_checked e meta
          (payload ++ pad e l meta.prg_seed room)
          (m0 ++ rest)
          (length m + layer_size * n + room)
        ≡ ok (m ++ rest)
    unfolding decrypt_checked
    checked =
        let spare : length m + layer_size * n + room - meta.ct_payload_length ≡ room =
          omega (arith, length_is) in
        rw
          (
            lt→leb (2 ^ 31) meta.ct_payload_length well_formed.fits,
            le→ltb (length m + layer_size * n + room) meta.ct_payload_length
                (omega (arith, length_is)),
            spare,
            gen_pad meta.prg_seed room well_formed.seed_16,
            drop-append (32 + meta.ct_payload_length) payload (pad e l meta.prg_seed room)
                (sym size),
            pads_agree_self (pad e l meta.prg_seed room),
          )
          opened

  -- AE_Decrypt under the key that the header and the ciphertext hold a message under, with the
  -- length of the ciphertext less its header, returns and writes the message to the front of its
  -- buffer, which has room for it, and nothing behind it.
  pub ae_decrypt-Holds :
      (ae_key : AeKey) (hat : CtHatDataEn) (ct m m0 rest : Bytes) (n room : ℕ)
      → Holds l ae_key.key hat ct m n room
      → length m0 ≡ length m
      → ae_decrypt e ae_key hat ct (m0 ++ rest) (length m + layer_size * n + room) ≡ ok (m ++ rest)
  unfolding ae_decrypt
  ae_decrypt-Holds ae_key hat ct m m0 rest n room holds same_m = rw (
    holds.hat_is,
    holds.ct_is,
    open_hat l ae_key.key holds.hat_iv holds.meta holds.key_16 holds.hat_iv_16 holds.well_formed,
    has_length_self 52,
    meta_of_bytes-meta_bytes holds.meta holds.well_formed,
    checked holds m0 rest same_m,
  )
