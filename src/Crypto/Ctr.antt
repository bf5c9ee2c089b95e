-- ===== src/Crypto/Ctr.antt =====
-- src/cd_encryption/aes_ctr.c: the pad generator. Of `ctr_encrypt` -1 is `none`.
pub mod Laws
use quicke_r.Prelude.{
  ℕ, zero, ◌+◌, ◌≡◌, refl, Option, none, some, [], ◌++◌, Bytes, length, replicate, arith,
  length-replicate,
}
use quicke_r.Memory.{Run, ok, ◌>>=◌, poke}
use quicke_r.Memory.Regions.{poke_at}
use quicke_r.Crypto.Evp.{Evp, EvpLaws, aes_128_ctr}

module _ (e : Evp) where
  -- The failing calls leave what was written so far.
  ctr_final : e.Ctx → ℕ → Bytes → ℕ → Run (Option ℕ × Bytes)
  ctr_final c len buf at = elim (e.encrypt_final c) [
    | none ↦ ok (none, buf)
    | some r ↦ do buf' ← poke buf at r.0; ok (some (len + length r.0), buf')
  ]

  ctr_update : e.Ctx → Bytes → Bytes → ℕ → Run (Option ℕ × Bytes)
  unfolding ctr_final
  ctr_update c plaintext buf off = elim (e.encrypt_update c plaintext) [
    | none ↦ ok (none, buf)
    | some r ↦ do buf' ← poke buf off r.0; ctr_final r.1 (length r.0) buf' (off + length r.0)
  ]

  ctr_init : e.Ctx → Bytes → Bytes → Bytes → Bytes → ℕ → Run (Option ℕ × Bytes)
  unfolding ctr_update
  ctr_init c plaintext key iv buf off =
      elim (e.encrypt_init c (some aes_128_ctr) (some key) (some iv)) [
        | none ↦ ok (none, buf)
        | some c' ↦ ctr_update c' plaintext buf off
      ]

  pub ctr_encrypt : Bytes → Bytes → Bytes → Bytes → ℕ → Run (Option ℕ × Bytes)
  unfolding ctr_init
  ctr_encrypt plaintext key iv buf off = elim e.ctx_new [
    | none ↦ ok (none, buf)
    | some c ↦ ctr_init c plaintext key iv buf off
  ]

  -- `size` zero bytes, encrypted under `key` with a zero iv, into the buffer at `off`.
  pub prg_aes_ctr : Bytes → ℕ → Bytes → ℕ → Run (Option ℕ × Bytes)
  unfolding ctr_encrypt
  prg_aes_ctr buf off key size = ctr_encrypt (replicate size 0) key (replicate 16 0) buf off
