-- ===== src/Crypto/Gcm/Open.antt =====
-- What `gcm_decrypt` does under the laws of EVP.
use quicke_r.Prelude.{
  ℕ, ◌+◌, ◌≡◌, none, some, ◌++◌, Bytes, length, same, same_refl, if◌then◌else◌, arith,
  length-append, Bool-cases, inl, inr,
}
use quicke_r.Memory.{ok}
use quicke_r.Memory.Regions.{poke_at, poke-nil}
use quicke_r.Crypto.Evp.{Evp, EvpLaws}
use quicke_r.Crypto.Gcm.{finish_decrypt, gcm_decrypt}

module _ (e : Evp) (l : EvpLaws e) where
  open l use {seal, unseal, tag_of, Opening, Opened, Tagged}

  -- Under a key and an iv of 16 bytes, the decrypted text is in the part `b` of the buffer, which
  -- has its size, whether or not the tag is right, and the result says whether it is.
  pub gcm_decrypt_lem :
      (key iv ct tag a b t : Bytes) (off : ℕ)
      → length key ≡ 16
      → length iv ≡ 16
      → off ≡ length a
      → length b ≡ length ct
      → gcm_decrypt e ct tag key iv 16 (a ++ (b ++ t)) off
        ≡ ok (
          (if same tag (tag_of key iv (unseal key iv ct)) then some (length ct) else none),
          a ++ (unseal key iv ct ++ t),
        )
  unfolding gcm_decrypt finish_decrypt
  gcm_decrypt_lem key iv ct tag a b t off hk hi ho hb =
      let s = l.open_start key iv hk hi in
      let (c4, fed, opened) = l.open_update key iv ct s.c3 s.holds in
      let (c5, tagged, st) = l.open_tag key iv ct tag c4 opened in
      let size = l.length-unseal key iv ct in
      let sized : e.set_ivlen s.c1 16 ≡ some s.c2 = rw (← hi) s.sized in
      rw
        (
          s.made,
          s.ciphered,
          sized,
          s.keyed,
          fed,
          poke_at a b t (unseal key iv ct) off ho (omega arith),
          tagged,
          l.open_final key iv ct tag c5 st,
        )
        (elim (Bool-cases (same tag (tag_of key iv (unseal key iv ct)))) [
          | inl right ↦ rw (
            right,
            poke-nil (a ++ (unseal key iv ct ++ t)) (off + length (unseal key iv ct)) (
                omega (
                  arith,
                  length-append a (unseal key iv ct ++ t),
                  length-append (unseal key iv ct) t,
                )),
            size,
          )
          | inr wrong ↦ rw wrong
        ])

  -- What was encrypted under a key and an iv of 16 bytes comes back into a part of its size, with
  -- the same key and iv and the tag made for it.
  pub gcm_decrypt-seal :
      (key iv p a b t : Bytes) (off : ℕ)
      → length key ≡ 16
      → length iv ≡ 16
      → off ≡ length a
      → length b ≡ length p
      → gcm_decrypt e (seal key iv p) (tag_of key iv p) key iv 16 (a ++ (b ++ t)) off
        ≡ ok (some (length p), a ++ (p ++ t))
  gcm_decrypt-seal key iv p a b t off hk hi ho hb = rw (
    gcm_decrypt_lem key iv (seal key iv p) (tag_of key iv p) a b t off hk hi ho
        (omega (arith, l.length-seal key iv p)),
    l.unseal-seal key iv p,
    same_refl (tag_of key iv p),
    l.length-seal key iv p,
  )
