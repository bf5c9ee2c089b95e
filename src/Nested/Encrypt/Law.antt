-- ===== src/Nested/Encrypt/Law.antt =====
-- What AE_Encrypt makes.
use quicke_r.Prelude.{
  ℕ, some, true, ◌==◌, ◌+◌, ◌*◌, ◌^◌, ◌<◌, ◌≡◌, refl, sym, ◌∙◌, [], ◌++◌, append_assoc, append-nil,
  Bytes, length, replicate, arith, length-append,
}
use quicke_r.Memory.{ok}
use quicke_r.Memory.Regions.{quarters, poke_at, peek_at}
use quicke_r.Crypto.Evp.{Evp, EvpLaws}
use quicke_r.Crypto.Gcm.{gcm_encrypt}
use quicke_r.Crypto.Ctr.{prg_aes_ctr}
use quicke_r.Crypto.Gcm.Laws.{gcm_encrypt_lem}
use quicke_r.Crypto.Ctr.Laws.{pad, prg_aes_ctr_lem}
use quicke_r.Nested.Layout.{key_len, layer_size, AeKey, CtHatData, CtHatDataEn, IsMeta}
use quicke_r.Nested.Encrypt.{EncryptDraws, ae_encrypt}
use quicke_r.Nested.Decrypt.{key_and}
use quicke_r.Nested.Hat.{seal_hat}
use quicke_r.Nested.Layers.{Holds, core, payload_of, hat_of}

-- Each draw has the length that the code asks RAND_bytes for.
pub record IsDrawn (d : EncryptDraws) : Type 0 where
  pub payload_key_16 : length d.payload_key ≡ 16
  pub payload_iv_16 : length d.payload_iv ≡ 16
  pub prg_seed_16 : length d.prg_seed ≡ 16
  pub hat_iv_16 : length d.hat_iv ≡ 16

zero_key : (key_and (replicate key_len 0) == 0) ≡ true
unfolding key_and
zero_key = refl

module _ {e : Evp} (l : EvpLaws e) where
  open l use {seal, tag_of}

  -- The header data that AE_Encrypt makes for a message of `n` bytes.
  abbrev pub first_meta : EncryptDraws → ℕ → CtHatData
  first_meta d n = record {
    prg_seed = d.prg_seed;
    payload_key = d.payload_key;
    history_key = replicate key_len 0;
    ct_payload_length = n;
  }

  first_meta-IsMeta : (d : EncryptDraws) (n : ℕ) → IsDrawn d → n < 2 ^ 31 → IsMeta (first_meta d n)
  first_meta-IsMeta d n h hn = record {
    seed_16 = h.prg_seed_16;
    payload_16 = h.payload_key_16;
    history_16 = refl;
    fits = hn;
  }

  -- The four writes into the ciphertext buffer, which is given in its parts.
  module _ (d : EncryptDraws) (ae_key : AeKey) (m b0 b1 b2 b3 : Bytes) (h : IsDrawn d)
      (hk : length ae_key.key ≡ 16) (hm : length m < 2 ^ 31) (h0 : length b0 ≡ 16)
      (h1 : length b1 ≡ 16) (h2 : length b2 ≡ length m)
      (h3 : length b3 ≡ ae_key.k_t * layer_size) where
    abbrev iv : Bytes
    iv = d.payload_iv

    abbrev sealed : Bytes
    sealed = seal d.payload_key iv m

    abbrev tag : Bytes
    tag = tag_of d.payload_key iv m

    write_payload :
        gcm_encrypt e m d.payload_key iv 16 (iv ++ (b1 ++ (b2 ++ b3))) 32
        ≡ ok
            (record { ciphertext_len = length m; buffer = iv ++ (b1 ++ (sealed ++ b3)); tag = tag })
    write_payload =
        rw (← append_assoc iv b1 (b2 ++ b3), ← append_assoc iv b1 (sealed ++ b3))
          (gcm_encrypt_lem e l d.payload_key iv m (iv ++ b1) b2 b3 32 h.payload_key_16
            h.payload_iv_16 (omega (arith, length-append iv b1, h.payload_iv_16)) h2)

    write_pad :
        prg_aes_ctr e
          (iv ++ (tag ++ (sealed ++ b3)))
          (32 + length m)
          d.prg_seed
          (ae_key.k_t * layer_size)
        ≡ ok (
          some (ae_key.k_t * layer_size),
          payload_of l d.payload_key iv m ++ pad e l d.prg_seed (ae_key.k_t * layer_size),
        )
    write_pad =
        let at : 32 + length m ≡ length (iv ++ (tag ++ sealed)) = omega (
          arith,
          h.payload_iv_16,
          length-append iv (tag ++ sealed),
          length-append tag sealed,
          l.length-tag_of d.payload_key iv m,
          l.length-seal d.payload_key iv m,
        ) in
        let made =
          prg_aes_ctr_lem e l d.prg_seed (iv ++ (tag ++ sealed)) b3 [] (32 + length m)
            (ae_key.k_t * layer_size) h.prg_seed_16 at h3 in
        simp append_assoc (simp (append-nil, append_assoc) at made)

    encrypt_parts :
        (rest : Bytes)
        → ae_encrypt e d ae_key (m ++ rest) (b0 ++ (b1 ++ (b2 ++ b3))) (length m)
          ≡ ok (
            hat_of l ae_key.key d.hat_iv (first_meta d (length m)),
            payload_of l d.payload_key iv m ++ pad e l d.prg_seed (ae_key.k_t * layer_size),
          )
    unfolding ae_encrypt
    encrypt_parts rest = rw (
      poke_at [] b0 (b1 ++ (b2 ++ b3)) iv 0 refl (h0 ∙ sym h.payload_iv_16),
      peek_at [] m rest 0 (length m) refl refl,
      write_payload,
      poke_at iv b1 (sealed ++ b3) tag 16 (sym h.payload_iv_16)
          (h1 ∙ sym (l.length-tag_of d.payload_key iv m)),
      write_pad,
      seal_hat l ae_key.key d.hat_iv (first_meta d (length m)) hk h.hat_iv_16
          (first_meta-IsMeta d (length m) h hm),
    )

  -- AE_Encrypt with 16-byte draws and a 16-byte key, on a message of fewer than 2^31 bytes and a
  -- buffer of the size that its callers allocate, returns; the header and the buffer then hold the
  -- message under no layer, with a pad of 96 bytes for each update asked for.
  pub ae_encrypt-Holds :
      (d : EncryptDraws) (ae_key : AeKey) (m rest buf : Bytes)
      → IsDrawn d
      → length ae_key.key ≡ 16
      → length m < 2 ^ 31
      → length buf ≡ 32 + length m + ae_key.k_t * layer_size
      → (hat : CtHatDataEn) × (ct : Bytes) × (ae_encrypt e d ae_key (m ++ rest) buf (length m)
          ≡ ok (hat, ct))
        × Holds l ae_key.key hat ct m 0 (ae_key.k_t * layer_size)
  ae_encrypt-Holds d ae_key m rest buf h hk hm size =
      let q = quarters buf (length m) (ae_key.k_t * layer_size) size in
      (
        hat_of l ae_key.key d.hat_iv (first_meta d (length m)),
        payload_of l d.payload_key d.payload_iv m ++ pad e l d.prg_seed (ae_key.k_t * layer_size),
        rw q.whole (
            encrypt_parts d ae_key m q.b0 q.b1 q.b2 q.b3 h hk hm q.size0 q.size1 q.size2 q.size3
              rest),
        record {
          meta = first_meta d (length m);
          hat_iv = d.hat_iv;
          payload = payload_of l d.payload_key d.payload_iv m;
          key_16 = hk;
          hat_iv_16 = h.hat_iv_16;
          well_formed = first_meta-IsMeta d (length m) h hm;
          hat_is = refl;
          layers = core d.payload_iv h.payload_iv_16 h.payload_key_16 refl zero_key refl;
          length_is = omega arith;
          ct_is = refl;
        },
      )
