-- ===== src/Crypto/Gcm/Laws.antt =====
-- What the wrappers of aes_gcm.c do under the laws of EVP.
use quicke_r.Prelude.{
  ℕ, ◌+◌, ◌≡◌, ap, [], ◌++◌, Bytes, length, arith, append_assoc, length-append, length-eq-zero, ◌≤◌,
}
use quicke_r.Memory.{ok}
use quicke_r.Memory.Regions.{poke_next, poke-nil}
use quicke_r.Crypto.Evp.{Evp, EvpLaws}
use quicke_r.Crypto.Gcm.{
  encrypt_start, encrypt_chunk, encrypt_finish, gcm_encrypt, gcm_encrypt_2, gcm_encrypt_4,
}

module _ (e : Evp) (l : EvpLaws e) where
  open l use {seal, unseal, tag_of, Sealing, Finished}

  start_lem :
      (key iv : Bytes)
      → length key ≡ 16
      → length iv ≡ 16
      → (c : e.Ctx) × (encrypt_start e key iv 16 ≡ ok c) × Sealing key iv [] c
  unfolding encrypt_start
  start_lem key iv hk hi =
      let s = l.seal_start key iv hk hi in
      (s.c3, rw (s.made, s.ciphered, ← hi, s.sized, s.keyed), s.holds)

  seal-nil : (key iv : Bytes) → seal key iv [] ≡ []
  seal-nil key iv = length-eq-zero _ (l.length-seal key iv [])

  chunk_lem :
      (key iv fed p a b t : Bytes) (c : e.Ctx) (off : ℕ)
      → Sealing key iv fed c
      → off ≡ length a + length fed
      → length b ≡ length p
      → (c' : e.Ctx) × Sealing key iv (fed ++ p) c'
        × (encrypt_chunk e c p (a ++ (seal key iv fed ++ (b ++ t))) off
            ≡ ok (length p, a ++ (seal key iv (fed ++ p) ++ t), c'))
  unfolding encrypt_chunk
  chunk_lem key iv fed p a b t c off s ho hb =
      let (out, c', got, s', grown) = l.seal_update key iv fed p c s in
      let size : length out ≡ length p = omega (
        arith,
        ap length grown,
        length-append (seal key iv fed) out,
        length-append fed p,
        l.length-seal key iv fed,
        l.length-seal key iv (fed ++ p),
      ) in
      (
        c',
        s',
        rw (
          got,
          poke_next a (seal key iv fed) b t out off (omega (arith, l.length-seal key iv fed))
              (omega arith),
          size,
          grown,
          append_assoc (seal key iv fed) out t,
        ),
      )

  finish_lem :
      (key iv fed a t : Bytes) (c : e.Ctx) (n off : ℕ)
      → Sealing key iv fed c
      → off ≤ length a + length fed
      → encrypt_finish e c n (a ++ (seal key iv fed ++ t)) off
        ≡ ok (record {
          ciphertext_len = n;
          buffer = a ++ (seal key iv fed ++ t);
          tag = tag_of key iv fed;
        })
  unfolding encrypt_finish
  finish_lem key iv fed a t c n off s h =
      let (c', got, f) = l.seal_final key iv fed c s in
      let same_n : n + 0 ≡ n = omega arith in
      let within : off ≤ length (a ++ (seal key iv fed ++ t)) = omega (
        arith,
        l.length-seal key iv fed,
        length-append a (seal key iv fed ++ t),
        length-append (seal key iv fed) t,
      ) in
      rw (got, poke-nil _ off within, l.seal_tag key iv fed c' f, same_n)

  -- The first chunk, on a buffer nothing was written to.
  first_lem :
      (key iv p a b t : Bytes) (c : e.Ctx) (off : ℕ)
      → Sealing key iv [] c
      → off ≡ length a
      → length b ≡ length p
      → (c' : e.Ctx) × Sealing key iv p c'
        × (encrypt_chunk e c p (a ++ (b ++ t)) off ≡ ok (length p, a ++ (seal key iv p ++ t), c'))
  first_lem key iv p a b t c off s ho hb =
      let (c', s', got) = chunk_lem key iv [] p a b t c off s (omega arith) hb in
      (c', s', rw (seal-nil key iv) at got)

  -- One plaintext: its encryption goes into the part `b` of the buffer.
  pub gcm_encrypt_lem :
      (key iv p a b t : Bytes) (off : ℕ)
      → length key ≡ 16
      → length iv ≡ 16
      → off ≡ length a
      → length b ≡ length p
      → gcm_encrypt e p key iv 16 (a ++ (b ++ t)) off
        ≡ ok (record {
          ciphertext_len = length p;
          buffer = a ++ (seal key iv p ++ t);
          tag = tag_of key iv p;
        })
  unfolding gcm_encrypt
  gcm_encrypt_lem key iv p a b t off hk hi ho hb =
      let (c, started, s) = start_lem key iv hk hi in
      let (c1, s1, fed) = first_lem key iv p a b t c off s ho hb in
      rw (started, fed, finish_lem key iv p a t c1 (length p) (off + length p) s1 (omega arith))

  -- Two plaintexts encrypt as their join.
  pub gcm_encrypt_2_lem :
      (key iv p q a b b' t : Bytes) (off : ℕ)
      → length key ≡ 16
      → length iv ≡ 16
      → off ≡ length a
      → length b ≡ length p
      → length b' ≡ length q
      → gcm_encrypt_2 e p q key iv 16 (a ++ (b ++ (b' ++ t))) off
        ≡ ok (record {
          ciphertext_len = length p + length q;
          buffer = a ++ (seal key iv (p ++ q) ++ t);
          tag = tag_of key iv (p ++ q);
        })
  unfolding gcm_encrypt_2
  gcm_encrypt_2_lem key iv p q a b b' t off hk hi ho hb hb' =
      let (c, started, s) = start_lem key iv hk hi in
      let (c1, s1, fed1) = first_lem key iv p a b (b' ++ t) c off s ho hb in
      let (c2, s2, fed2) = chunk_lem key iv p q a b' t c1 (off + length p) s1 (omega arith) hb' in
      rw (
        started,
        fed1,
        fed2,
        finish_lem key iv (p ++ q) a t c2 (length p + length q) (off + length q) s2
            (omega (arith, length-append p q)),
      )

  -- Four plaintexts encrypt as their join.
  pub gcm_encrypt_4_lem :
      (key iv p q r s a b b' b'' b''' t : Bytes) (off : ℕ)
      → length key ≡ 16
      → length iv ≡ 16
      → off ≡ length a
      → length b ≡ length p
      → length b' ≡ length q
      → length b'' ≡ length r
      → length b''' ≡ length s
      → gcm_encrypt_4 e p q r s key iv 16 (a ++ (b ++ (b' ++ (b'' ++ (b''' ++ t))))) off
        ≡ ok (record {
          ciphertext_len = length p + length q + length r + length s;
          buffer = a ++ (seal key iv (((p ++ q) ++ r) ++ s) ++ t);
          tag = tag_of key iv (((p ++ q) ++ r) ++ s);
        })
  unfolding gcm_encrypt_4
  gcm_encrypt_4_lem key iv p q r s a b b' b'' b''' t off hk hi ho hb hb' hb'' hb''' =
      let (c, started, st) = start_lem key iv hk hi in
      let (c1, s1, fed1) = first_lem key iv p a b (b' ++ (b'' ++ (b''' ++ t))) c off st ho hb in
      let (c2, s2, fed2) =
        chunk_lem key iv p q a b' (b'' ++ (b''' ++ t)) c1 (off + length p) s1 (omega arith) hb' in
      let (c3, s3, fed3) =
        chunk_lem key iv (p ++ q) r a b'' (b''' ++ t) c2 (off + (length p + length q)) s2
          (omega (arith, length-append p q)) hb'' in
      let (c4, s4, fed4) =
        chunk_lem key iv ((p ++ q) ++ r) s a b''' t c3 (off + (length p + length q + length r)) s3
          (omega (arith, length-append p q, length-append (p ++ q) r)) hb''' in
      rw (
        started,
        fed1,
        fed2,
        fed3,
        fed4,
        finish_lem key iv (((p ++ q) ++ r) ++ s) a t c4 (length p + length q + length r + length s)
            (off + length s) s4
            (omega (
              arith,
              length-append p q,
              length-append (p ++ q) r,
              length-append ((p ++ q) ++ r) s,
            )),
      )
