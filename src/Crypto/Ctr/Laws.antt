-- ===== src/Crypto/Ctr/Laws.antt =====
-- What the pad generator does under the laws of EVP.
use quicke_r.Prelude.{
  ℕ, ◌+◌, ◌≡◌, refl, some, ◌++◌, Bytes, length, replicate, arith, length-append, length-replicate,
}
use quicke_r.Memory.{ok}
use quicke_r.Memory.Regions.{poke_at, poke-nil}
use quicke_r.Crypto.Evp.{Evp, EvpLaws}
use quicke_r.Crypto.Ctr.{prg_aes_ctr}

module _ (e : Evp) (l : EvpLaws e) where
  open l use {stream}

  -- The pad of `size` bytes for a seed.
  abbrev pub pad : Bytes → ℕ → Bytes
  pad seed size = stream seed (replicate 16 0) (replicate size 0)

  pub length-pad : (seed : Bytes) (size : ℕ) → length (pad seed size) ≡ size
  length-pad seed size = omega (
    arith,
    l.length-stream seed (replicate 16 0) (replicate size 0),
    length-replicate {A = ℕ} size 0,
  )

  -- With a seed of 16 bytes the pad goes into the part `b` of the buffer, which has its size, and
  -- the size is returned.
  pub prg_aes_ctr_lem :
      (seed a b t : Bytes) (off size : ℕ)
      → length seed ≡ 16
      → off ≡ length a
      → length b ≡ size
      → prg_aes_ctr e (a ++ (b ++ t)) off seed size ≡ ok (some size, a ++ (pad seed size ++ t))
  unfolding prg_aes_ctr
  prg_aes_ctr_lem seed a b t off size hs ho hb =
      let (c0, c1, made, keyed, st) = l.stream_start seed (replicate 16 0) hs refl in
      let (c2, c3, fed, last) = l.stream_update seed (replicate 16 0) (replicate size 0) c1 st in
      let len = length-pad seed size in
      let none_left : length (pad seed size) + 0 ≡ size = omega arith in
      rw (
        made,
        keyed,
        fed,
        poke_at a b t (pad seed size) off ho (omega arith),
        last,
        poke-nil (a ++ (pad seed size ++ t)) (off + length (pad seed size))
            (omega (arith, length-append a (pad seed size ++ t), length-append (pad seed size) t)),
        none_left,
      )
