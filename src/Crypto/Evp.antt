-- ===== src/Crypto/Evp.antt =====
-- OpenSSL's EVP interface, which the wrappers call and which is no code of this repository: a
-- record of its calls. `none` is a return value that the caller treats as a failure.
use quicke_r.Prelude.{ℕ, ◌≡◌, Option, none, some, [], ◌++◌, Bytes, same, length, if◌then◌else◌}

-- EVP_aes_128_gcm(), EVP_aes_128_ctr()
pub data Cipher : Type 0 where
  aes_128_gcm aes_128_ctr : Cipher

pub record Evp : Type 1 where
  pub Ctx : Type 0
  -- EVP_CIPHER_CTX_new
  pub ctx_new : Option Ctx
  -- EVP_EncryptInit_ex and EVP_DecryptInit_ex: the cipher, the key and the iv may be NULL
  pub encrypt_init : Ctx → Option Cipher → Option Bytes → Option Bytes → Option Ctx
  pub decrypt_init : Ctx → Option Cipher → Option Bytes → Option Bytes → Option Ctx
  -- EVP_CIPHER_CTX_ctrl with EVP_CTRL_GCM_SET_IVLEN, _GET_TAG, _SET_TAG
  pub set_ivlen : Ctx → ℕ → Option Ctx
  pub get_tag : Ctx → ℕ → Option Bytes
  pub set_tag : Ctx → Bytes → Option Ctx
  -- EVP_EncryptUpdate, EVP_EncryptFinal_ex: the bytes written, whose number is `*len`
  pub encrypt_update : Ctx → Bytes → Option (Bytes × Ctx)
  pub encrypt_final : Ctx → Option (Bytes × Ctx)
  -- EVP_DecryptUpdate, EVP_DecryptFinal_ex: of the latter `none` is a result of 0 or less
  pub decrypt_update : Ctx → Bytes → Option (Bytes × Ctx)
  pub decrypt_final : Ctx → Option Bytes

-- Initialising a context for GCM by the three calls that the manual gives.
pub record Started (e : Evp)
    (init : e.Ctx → Option Cipher → Option Bytes → Option Bytes → Option e.Ctx) (key iv : Bytes)
    (P : e.Ctx → Type 0) : Type 0 where
  pub c0 : e.Ctx
  pub c1 : e.Ctx
  pub c2 : e.Ctx
  pub c3 : e.Ctx
  pub made : e.ctx_new ≡ some c0
  pub ciphered : init c0 (some aes_128_gcm) none none ≡ some c1
  pub sized : e.set_ivlen c1 (length iv) ≡ some c2
  pub keyed : init c2 none (some key) (some iv) ≡ some c3
  pub holds : P c3

-- What the manual says of AES-128-GCM and AES-128-CTR with a 16-byte key and iv: the calls
-- succeed, the output of successive updates is the encryption of the joined input, the final call
-- writes nothing, a decryption undoes an encryption under the same key and iv, and the final call
-- of a decryption succeeds exactly if the tag is that of the decrypted text. The families are the
-- states of a context.
pub record EvpLaws (e : Evp) : Type 1 where
  pub seal : Bytes → Bytes → Bytes → Bytes
  pub unseal : Bytes → Bytes → Bytes → Bytes
  pub tag_of : Bytes → Bytes → Bytes → Bytes
  pub stream : Bytes → Bytes → Bytes → Bytes
  pub length-seal : (key iv p : Bytes) → length (seal key iv p) ≡ length p
  pub length-unseal : (key iv c : Bytes) → length (unseal key iv c) ≡ length c
  pub length-tag_of : (key iv p : Bytes) → length (tag_of key iv p) ≡ 16
  pub length-stream : (key iv p : Bytes) → length (stream key iv p) ≡ length p
  pub unseal-seal : (key iv p : Bytes) → unseal key iv (seal key iv p) ≡ p
  pub Sealing : Bytes → Bytes → Bytes → e.Ctx → Type 0
  pub Finished : Bytes → Bytes → Bytes → e.Ctx → Type 0
  pub Opening : Bytes → Bytes → e.Ctx → Type 0
  pub Opened : Bytes → Bytes → Bytes → e.Ctx → Type 0
  pub Tagged : Bytes → Bytes → Bytes → Bytes → e.Ctx → Type 0
  pub Streaming : Bytes → Bytes → e.Ctx → Type 0
  pub seal_start :
      (key iv : Bytes)
      → length key ≡ 16
      → length iv ≡ 16
      → Started e e.encrypt_init key iv (Sealing key iv [])
  pub seal_update :
      (key iv fed p : Bytes) (c : e.Ctx)
      → Sealing key iv fed c
      → (out : Bytes) × (c' : e.Ctx) × (e.encrypt_update c p ≡ some (out, c'))
        × Sealing key iv (fed ++ p) c'
        × (seal key iv (fed ++ p) ≡ seal key iv fed ++ out)
  pub seal_final :
      (key iv fed : Bytes) (c : e.Ctx)
      → Sealing key iv fed c
      → (c' : e.Ctx) × (e.encrypt_final c ≡ some ([], c')) × Finished key iv fed c'
  pub seal_tag :
      (key iv fed : Bytes) (c : e.Ctx)
      → Finished key iv fed c
      → e.get_tag c 16 ≡ some (tag_of key iv fed)
  pub open_start :
      (key iv : Bytes)
      → length key ≡ 16
      → length iv ≡ 16
      → Started e e.decrypt_init key iv (Opening key iv)
  pub open_update :
      (key iv p : Bytes) (c : e.Ctx)
      → Opening key iv c
      → (c' : e.Ctx) × (e.decrypt_update c p ≡ some (unseal key iv p, c')) × Opened key iv p c'
  pub open_tag :
      (key iv p tag : Bytes) (c : e.Ctx)
      → Opened key iv p c
      → (c' : e.Ctx) × (e.set_tag c tag ≡ some c') × Tagged key iv p tag c'
  pub open_final :
      (key iv p tag : Bytes) (c : e.Ctx)
      → Tagged key iv p tag c
      → e.decrypt_final c ≡ (if same tag (tag_of key iv (unseal key iv p)) then some [] else none)
  pub stream_start :
      (key iv : Bytes)
      → length key ≡ 16
      → length iv ≡ 16
      → (c0 : e.Ctx) × (c1 : e.Ctx) × (e.ctx_new ≡ some c0)
        × (e.encrypt_init c0 (some aes_128_ctr) (some key) (some iv) ≡ some c1)
        × Streaming key iv c1
  pub stream_update :
      (key iv p : Bytes) (c : e.Ctx)
      → Streaming key iv c
      → (c' : e.Ctx) × (c'' : e.Ctx) × (e.encrypt_update c p ≡ some (stream key iv p, c'))
        × (e.encrypt_final c' ≡ some ([], c''))
