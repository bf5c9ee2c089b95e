-- ===== src/Hsm.antt =====
-- The calls of src/hsm_encryption and of PKCS#11 that src/actions makes.
pub mod Pkcs11
pub mod Wrap
pub mod Buffers
pub mod RoundTrip
use quicke_r.Prelude.{ℕ, ◌≤◌, ◌≡◌, ◌++◌, Bytes, length}
use quicke_r.Memory.{Run, ok}

-- hsm_aes_encrypt, hsm_aes_decrypt, C_GenerateKey as generate_aes_key calls it, C_DestroyObject,
-- each with its CK_RV, of which 0 is CKR_OK, and reset_connection. `abort` is the `exit` that both
-- functions make on the value 130.
pub record Hsm : Type 1 where
  pub Session : Type 0
  pub encrypt : ℕ → Bytes → Session → Run (ℕ × Bytes × Session)
  pub decrypt : ℕ → Bytes → Session → Run (ℕ × Bytes × Session)
  pub generate : Session → ℕ × ℕ × Session
  pub destroy : ℕ → Session → Session
  pub reset : Session → Session

module _ (h : Hsm) where
  open h use {Session, encrypt, decrypt}

  -- What the callers rely on: a wrapped text that is unwrapped under the same handle begins with the
  -- text that was wrapped.
  pub record HsmLaws : Type 1 where
    pub Wrapped : ℕ → Bytes → Bytes → Type 0
    pub encrypt-Wrapped :
        (handle : ℕ) (plain out : Bytes) (s s' : Session)
        → encrypt handle plain s ≡ ok (0, out, s')
        → Wrapped handle plain out
    pub decrypt-Wrapped :
        (handle : ℕ) (plain wrapped out : Bytes) (s s' : Session)
        → Wrapped handle plain wrapped
        → decrypt handle wrapped s ≡ ok (0, out, s')
        → (rest : Bytes) × (out ≡ plain ++ rest)
    pub length-Wrapped :
        (handle : ℕ) (plain wrapped : Bytes) → Wrapped handle plain wrapped → 1 ≤ length wrapped
