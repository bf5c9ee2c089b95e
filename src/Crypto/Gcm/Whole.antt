-- ===== src/Crypto/Gcm/Whole.antt =====
-- The wrappers of several plaintexts over one region of the buffer.
use quicke_r.Prelude.{ℕ, ◌+◌, ◌≡◌, ap, ◌∙◌, ◌++◌, append_assoc, Bytes, length, arith}
use quicke_r.Memory.{ok}
use quicke_r.Memory.Regions.{parts}
use quicke_r.Crypto.Evp.{Evp, EvpLaws}
use quicke_r.Crypto.Gcm.{gcm_encrypt_2, gcm_encrypt_4}
use quicke_r.Crypto.Gcm.Laws.{gcm_encrypt_2_lem, gcm_encrypt_4_lem}

module _ (e : Evp) (l : EvpLaws e) where
  open l use {seal, tag_of}

  -- Under a key and an iv of 16 bytes, two plaintexts go into the part `b` of the buffer, which has
  -- their size, as the encryption of their join, whose length and tag are returned.
  pub gcm_encrypt_2-region :
      (key iv p q a b t : Bytes) (off : ℕ)
      → length key ≡ 16
      → length iv ≡ 16
      → off ≡ length a
      → length b ≡ length p + length q
      → gcm_encrypt_2 e p q key iv 16 (a ++ (b ++ t)) off
        ≡ ok (record {
          ciphertext_len = length p + length q;
          buffer = a ++ (seal key iv (p ++ q) ++ t);
          tag = tag_of key iv (p ++ q);
        })
  gcm_encrypt_2-region key iv p q a b t off hk hi ho hb =
      let x = parts b (length p) (omega arith) in
      let split : a ++ (b ++ t) ≡ a ++ (x.front ++ (x.back ++ t)) =
        ap (λ s. a ++ s) (ap (λ s. s ++ t) x.whole ∙ append_assoc x.front x.back t) in
      rw split (
        gcm_encrypt_2_lem e l key iv p q a x.front x.back t off hk hi ho x.size
          (omega (arith, x.rest, x.size)))

  -- Under a key and an iv of 16 bytes, four plaintexts go into the part `b` of the buffer, which has
  -- their size, as the encryption of their join, whose length and tag are returned.
  pub gcm_encrypt_4-region :
      (key iv p q r s a b t : Bytes) (off : ℕ)
      → length key ≡ 16
      → length iv ≡ 16
      → off ≡ length a
      → length b ≡ length p + length q + length r + length s
      → gcm_encrypt_4 e p q r s key iv 16 (a ++ (b ++ t)) off
        ≡ ok (record {
          ciphertext_len = length p + length q + length r + length s;
          buffer = a ++ (seal key iv ((p ++ q) ++ (r ++ s)) ++ t);
          tag = tag_of key iv ((p ++ q) ++ (r ++ s));
        })
  gcm_encrypt_4-region key iv p q r s a b t off hk hi ho hb =
      let x = parts b (length p) (omega arith) in
      let y = parts x.back (length q) (omega (arith, x.rest, x.size)) in
      let z = parts y.back (length r) (omega (arith, x.rest, x.size, y.rest, y.size)) in
      let join : b ≡ x.front ++ (y.front ++ (z.front ++ z.back)) =
        x.whole ∙ ap (λ u. x.front ++ u) (y.whole ∙ ap (λ u. y.front ++ u) z.whole) in
      let regroup : b ++ t ≡ x.front ++ (y.front ++ (z.front ++ (z.back ++ t))) =
        ap (λ u. u ++ t) join ∙ simp append_assoc in
      let made =
        gcm_encrypt_4_lem e l key iv p q r s a x.front y.front z.front z.back t off hk hi ho x.size
          y.size z.size (omega (arith, x.rest, x.size, y.rest, y.size, z.rest, z.size)) in
      rw (regroup, ← append_assoc (p ++ q) r s) made
