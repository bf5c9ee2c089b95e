-- ===== src/Nested/Update/Reencrypt.antt =====
-- What AE_ReEncrypt makes of a ciphertext and a token.
use quicke_r.Prelude.{
  ℕ, ◌+◌, ◌-◌, ◌≡◌, refl, sym, ap, ◌∙◌, some, [], ◌++◌, append-nil, append_assoc, Bytes, length,
  arith, length-append, le→ltb, ==_refl,
}
use quicke_r.Memory.{ok, peek}
use quicke_r.Memory.Regions.{Parts, parts, quarters, poke_at, peek_at}
use quicke_r.Crypto.Evp.{Evp, EvpLaws}
use quicke_r.Crypto.Gcm.{gcm_encrypt_4}
use quicke_r.Crypto.Gcm.Whole.{gcm_encrypt_4-region}
use quicke_r.Crypto.Ctr.Laws.{pad, prg_aes_ctr_lem}
use quicke_r.Nested.Layout.{CtHatData, CtHatDataEn, IsMeta, header_bytes}
use quicke_r.Nested.Layers.{payload_of, history_of, hat_of, length-history_of, length-payload_of}
use quicke_r.Nested.Update.{RekeyDraws, reencrypt_pad, ae_reencrypt}
use quicke_r.Nested.Update.Rekey.{IsDrawn, new_meta, delta_of}

module _ {e : Evp} (l : EvpLaws e) (d : RekeyDraws) (h : IsDrawn d) (old : CtHatData)
    (hm : IsMeta old) (new_key iv p0 pad0 : Bytes) (room : ℕ) (hi : length iv ≡ 16)
    (hp : length p0 ≡ 32 + old.ct_payload_length) where
  open l use {seal, tag_of}

  abbrev n : ℕ
  n = old.ct_payload_length

  abbrev history : Bytes
  history = history_of l d.history_key d.history_iv old.payload_key old.history_key

  abbrev inner : Bytes
  inner = p0 ++ history

  -- The old header and the old payload are read in two parts.
  read_old :
      (x : Parts p0 32)
      → (peek (p0 ++ pad0) 0 32 ≡ ok x.front) × (peek (p0 ++ pad0) 32 n ≡ ok x.back)
  read_old x =
      let whole : p0 ++ pad0 ≡ x.front ++ (x.back ++ pad0) =
        ap (λ u. u ++ pad0) x.whole ∙ append_assoc x.front x.back pad0 in
      (
        rw whole (peek_at [] x.front (x.back ++ pad0) 0 32 refl (sym x.size)),
        rw whole
            (peek_at x.front x.back pad0 32 n (sym x.size) (omega (arith, x.rest, x.size, hp))),
      )

  seal_inner :
      (x : Parts p0 32) (b1 b2 b3 : Bytes)
      → length b1 ≡ 16
      → length b2 ≡ n + 96
      → gcm_encrypt_4 e x.front x.back
          (d.history_iv ++ tag_of d.history_key d.history_iv (old.payload_key ++ old.history_key))
          (seal d.history_key d.history_iv (old.payload_key ++ old.history_key))
          d.payload_key
          iv
          16
          (iv ++ (b1 ++ (b2 ++ b3)))
          32
        ≡ ok (record {
          ciphertext_len = 32 + n + 32 + 32;
          buffer = iv ++ (b1 ++ (seal d.payload_key iv inner ++ b3));
          tag = tag_of d.payload_key iv inner;
        })
  seal_inner x b1 b2 b3 h1 h2 =
      let old_keys = old.payload_key ++ old.history_key in
      let hh = d.history_iv ++ tag_of d.history_key d.history_iv old_keys in
      let hct = seal d.history_key d.history_iv old_keys in
      let size_hh : length hh ≡ 32 = omega (
        arith,
        h.history_iv_16,
        length-append d.history_iv (tag_of d.history_key d.history_iv old_keys),
        l.length-tag_of d.history_key d.history_iv old_keys,
      ) in
      let size_hct : length hct ≡ 32 = omega (
        arith,
        hm.payload_16,
        hm.history_16,
        l.length-seal d.history_key d.history_iv old_keys,
        length-append old.payload_key old.history_key,
      ) in
      let size_back : length x.back ≡ n = omega (arith, x.rest, x.size, hp) in
      let made =
        gcm_encrypt_4-region e l d.payload_key iv x.front x.back hh hct (iv ++ b1) b2 b3 32
          h.payload_key_16 hi (omega (arith, length-append iv b1)) (omega (arith, x.size)) in
      simp append_assoc
        (simp (x.size, size_back, size_hh, size_hct, append_assoc) at (rw (← x.whole) at made))

  length-inner : length inner ≡ 32 + n + 64
  length-inner = omega (
    arith,
    hp,
    length-append p0 history,
    length-history_of l d.history_key d.history_iv old.payload_key old.history_key h.history_iv_16
        hm.payload_16 hm.history_16,
  )

  regroup :
      (b3 : Bytes)
      → iv ++ (tag_of d.payload_key iv inner ++ (seal d.payload_key iv inner ++ b3))
        ≡ payload_of l d.payload_key iv inner ++ (b3 ++ [])
  regroup b3 = simp (append_assoc, append-nil)

  write_pad :
      (b3 : Bytes)
      → length b3 ≡ room
      → reencrypt_pad e
          (delta_of l d old new_key)
          (32 + n + 32 + 32)
          (iv ++ (tag_of d.payload_key iv inner ++ (seal d.payload_key iv inner ++ b3)))
          (n + 96 + room)
        ≡ ok (record {
          ret = some (n + 96 + room);
          hat = hat_of l new_key d.hat_iv (new_meta d n);
          ciphertext = payload_of l d.payload_key iv inner ++ pad e l d.prg_seed room;
        })
  unfolding reencrypt_pad
  write_pad b3 h3 =
      let at : 32 + (32 + n + 32 + 32) ≡ length (payload_of l d.payload_key iv inner) =
        omega (arith, length-inner, length-payload_of l d.payload_key iv inner hi) in
      let size : n + 96 + room - (32 + n + 32 + 32) ≡ room = omega arith in
      let made =
        prg_aes_ctr_lem e l d.prg_seed (payload_of l d.payload_key iv inner) b3 []
          (32 + (32 + n + 32 + 32)) room h.prg_seed_16 at h3 in
      rw (
        le→ltb (n + 96 + room) (32 + n + 32 + 32) (omega arith),
        size,
        regroup b3,
        made,
        append-nil (pad e l d.prg_seed room),
      )

  -- A ciphertext with `room` bytes to spare beyond one more layer is encrypted anew, old payload and
  -- old keys inside, into a buffer of its own size. The draws and the iv have 16 bytes, and the old
  -- header data, from which the token was made, is well-formed and has the payload's length.
  pub ae_reencrypt_lem :
      (hat2 : CtHatDataEn) (buf : Bytes)
      → length buf ≡ 32 + (n + 96) + room
      → ae_reencrypt e iv (delta_of l d old new_key) (p0 ++ pad0) hat2 buf (n + 96 + room)
        ≡ ok (record {
          ret = some (n + 96 + room);
          hat = hat_of l new_key d.hat_iv (new_meta d n);
          ciphertext = payload_of l d.payload_key iv inner ++ pad e l d.prg_seed room;
        })
  unfolding ae_reencrypt header_bytes
  ae_reencrypt_lem hat2 buf size =
      let q = quarters buf (n + 96) room size in
      let x = parts p0 32 (omega (arith, hp)) in
      let (first, second) = read_old x in
      rw
        (
          le→ltb (n + 96 + room) n (omega arith),
          q.whole,
          poke_at [] q.b0 (q.b1 ++ (q.b2 ++ q.b3)) iv 0 refl (q.size0 ∙ sym hi),
          first,
          second,
          seal_inner x q.b1 q.b2 q.b3 q.size1 q.size2,
          poke_at iv q.b1 (seal d.payload_key iv inner ++ q.b3) (tag_of d.payload_key iv inner) 16
              (sym hi) (q.size1 ∙ sym (l.length-tag_of d.payload_key iv inner)),
          ==_refl (32 + n + 32 + 32),
        )
        (write_pad q.b3 q.size3)
