-- ===== src/Hsm/Pkcs11.antt =====
-- The PKCS#11 functions that src/hsm_encryption calls, as a parameter, and what the standard says
-- of them for CKM_AES_GCM with an iv that the module makes.
use quicke_r.Prelude.{ℕ, ◌+◌, ◌≤◌, ◌≡◌, Bytes, length}

-- Each call gives its CK_RV, of which 0 is CKR_OK. `encrypt_size` and `decrypt_size` are C_Encrypt
-- and C_Decrypt without an output buffer; the others get the length that the caller says the buffer
-- has. `encrypt` gives what stands at `pIv` and the output.
pub record Pkcs11 : Type 1 where
  pub Session : Type 0
  pub encrypt_init : ℕ → Session → ℕ × Session
  pub encrypt_size : Bytes → Session → ℕ × ℕ × Session
  pub encrypt : Bytes → ℕ → Session → ℕ × (Bytes × Bytes) × Session
  pub decrypt_init : ℕ → Bytes → Session → ℕ × Session
  pub decrypt_size : Bytes → Session → ℕ × ℕ × Session
  pub decrypt : Bytes → ℕ → Session → ℕ × Bytes × Session
  pub generate_key : Session → ℕ × ℕ × Session
  pub destroy_object : ℕ → Session → Session
  pub reset : Session → Session

module _ (p : Pkcs11) where
  open p use {Session, encrypt_init, encrypt_size, encrypt, decrypt_init, decrypt_size, decrypt}

  -- `seal` is the encryption with its tag, under a handle and an iv. A session is `Encrypting` or
  -- `Decrypting` from the initialisation on, through the question for the size. A size that is given
  -- is enough, and may be more than that. A successful decryption has found the tag to be right.
  pub record Pkcs11Laws : Type 1 where
    pub seal : ℕ → Bytes → Bytes → Bytes
    pub Encrypting : ℕ → Session → Type 0
    pub Decrypting : ℕ → Bytes → Session → Type 0
    pub encrypt_init-Encrypting :
        (handle : ℕ) (s : Session)
        → (encrypt_init handle s).0 ≡ 0
        → Encrypting handle (encrypt_init handle s).1
    pub encrypt_size-enough :
        (plain : Bytes) (s : Session)
        → (encrypt_size plain s).0 ≡ 0
        → length plain + 16 ≤ (encrypt_size plain s).1
    pub encrypt_size-Encrypting :
        (handle : ℕ) (plain : Bytes) (s : Session)
        → Encrypting handle s
        → (encrypt_size plain s).0 ≡ 0
        → Encrypting handle (encrypt_size plain s).2
    pub encrypt-bounded :
        (plain : Bytes) (room : ℕ) (s : Session)
        → (length (encrypt plain room s).1.0 ≡ 12)
          × (length (encrypt plain room s).1.1 ≤ length plain + 16)
    pub encrypt-seal :
        (handle : ℕ) (plain : Bytes) (room : ℕ) (s : Session)
        → Encrypting handle s
        → (encrypt plain room s).0 ≡ 0
        → (encrypt plain room s).1.1 ≡ seal handle (encrypt plain room s).1.0 plain
    pub decrypt_init-Decrypting :
        (handle : ℕ) (iv : Bytes) (s : Session)
        → (decrypt_init handle iv s).0 ≡ 0
        → Decrypting handle iv (decrypt_init handle iv s).1
    pub decrypt_size-Decrypting :
        (handle : ℕ) (iv text : Bytes) (s : Session)
        → Decrypting handle iv s
        → (decrypt_size text s).0 ≡ 0
        → Decrypting handle iv (decrypt_size text s).2
    pub decrypt-bounded :
        (text : Bytes) (room : ℕ) (s : Session) → length (decrypt text room s).1 ≤ room
    pub decrypt-seal :
        (handle : ℕ) (iv plain : Bytes) (room : ℕ) (s : Session)
        → Decrypting handle iv s
        → (decrypt (seal handle iv plain) room s).0 ≡ 0
        → (decrypt (seal handle iv plain) room s).1 ≡ plain
