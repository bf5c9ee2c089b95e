-- ===== src/Memory.antt =====
-- C memory as the sources use it: a buffer is a list of bytes, and a read or a write outside it is
-- a fault. `abort` is the end of the process by `abort()` (handleErrors of the gcm wrappers) or by
-- `exit`.
pub mod Regions
pub mod Binds
use quicke_r.Prelude.{
  ℕ, zero, suc, ◌+◌, Option, none, some, [], ◌∷◌, Bytes, length, take, drop, leb, if◌then◌else◌,
}

pub data Run {ℓ} (A : Type ℓ) : Type ℓ where
  ok : A → Run A
  abort : Run A
  fault : Run A

infixl 5 ◌>>=◌
abbrev pub ◌>>=◌ {ℓ κ} : {A : Type ℓ} {B : Type κ} → Run A → (A → Run B) → Run B
ok a >>= f = f a
abort >>= f = abort
fault >>= f = fault

-- A library call that returned its error code, where the caller answers by `handleErrors`.
abbrev pub or_abort {ℓ} : {A : Type ℓ} → Option A → Run A
or_abort none = abort
or_abort (some a) = ok a

-- A null pointer that is read.
abbrev pub or_fault {ℓ} : {A : Type ℓ} → Option A → Run A
or_fault none = fault
or_fault (some a) = ok a

unfoldable pub put_front : Bytes → Bytes → Bytes
put_front buf [] = buf
put_front [] (y ∷ ys) = []
put_front (x ∷ xs) (y ∷ ys) = y ∷ put_front xs ys

unfoldable pub overwrite : Bytes → ℕ → Bytes → Bytes
overwrite buf zero src = put_front buf src
overwrite [] (suc off) src = []
overwrite (x ∷ xs) (suc off) src = x ∷ overwrite xs off src

-- `memcpy(buf + off, src, |src|)`
unfoldable pub poke : Bytes → ℕ → Bytes → Run Bytes
unfolding overwrite put_front
poke buf off src = if leb (off + length src) (length buf) then ok (overwrite buf off src) else fault

-- The `n` bytes from `buf + off` on.
unfoldable pub peek : Bytes → ℕ → ℕ → Run Bytes
peek buf off n = if leb (off + n) (length buf) then ok (take n (drop off buf)) else fault
