-- ===== src/Actions.antt =====
-- src/actions/actions.c: the operations of a client on ciphertexts of updatable encryption, and the
-- master key. What RAND_bytes writes is an argument of each.
pub mod Loops
pub mod Values
pub mod Upload
pub mod Download
pub mod Rekey
pub mod Rotate
pub mod Naive
use quicke_r.Prelude.{
  ℕ, zero, suc, ◌+◌, ◌*◌, ◌-◌, ◌==◌, Bool, true, false, Option, none, some, List, [], ◌∷◌, ◌++◌,
  Bytes, codes, length, take, replicate, ltb, if◌then◌else◌,
}
use quicke_r.Memory.{Run, ok, fault, ◌>>=◌, or_abort, or_fault, poke, peek}
use quicke_r.Crypto.Evp.{Evp}
use quicke_r.Text.Split.{space, join}
use quicke_r.Text.Decimal.{decimal}
use quicke_r.Text.Int.{print_int, ulong, atoi}
use quicke_r.Nested.Layout.{
  layer_size, le32, of_le32, AeKey, CtHatDataEn, CtxHeader, hat_bytes, hat_of_bytes, delta_bytes,
}
use quicke_r.Nested.Encrypt.{EncryptDraws, ae_keygen, ae_encrypt, fresh}
use quicke_r.Nested.Decrypt.{ae_decrypt}
use quicke_r.Nested.Update.{RekeyDraws, ae_rekeygen}
use quicke_r.Server.Update.{Base64}
use quicke_r.Server.Values.{c_string}
use quicke_r.Client.{Peer, Value, set, get, getall, setall}
use quicke_r.Hsm.{Hsm}
use quicke_r.Actions.Loops.{wrap_loop, unwrap_loop, unwrap_or_fail, generate_new_k_master}

-- The keys under which a ciphertext's parts are stored.
unfoldable pub wrap_id : Bytes → Bytes
wrap_id id = codes "wrap_" ++ id

unfoldable pub header_id : Bytes → Bytes
header_id id = codes "header_" ++ id

unfoldable pub data_id : Bytes → Bytes
data_id id = codes "data_" ++ id

unfoldable pub root_version_id : Bytes → Bytes
root_version_id id = codes "root_version_" ++ id

unfoldable pub ctxt_version_id : Bytes → Bytes
ctxt_version_id id = codes "ctxt_version_" ++ id

-- The twenty bytes of an AE_key, and back.
unfoldable pub key_bytes : AeKey → Bytes
key_bytes k = k.key ++ le32 k.k_t

unfoldable pub key_of_bytes : Bytes → Run AeKey
key_of_bytes b = do
  key ← peek b 0 16
  k_t ← peek b 16 4
  ok (record { key = key; k_t = of_le32 k_t })

-- `char key_handle_string[15]`, cleared and printed into with %d: the low 32 bits of the handle, as an
-- int.
unfoldable pub handle_string : ℕ → Run Bytes
handle_string handle = poke (replicate 15 0) 0 (print_int handle ++ (0 ∷ []))

module _ (e : Evp) (p : Peer) (b : Base64) (h : Hsm) where
  -- The server and the session of the HSM.
  pub record World : Type 0 where
    pub store : p.World
    pub session : h.Session

  -- `patience` bounds the attempts of each `while(1)`; `abort` is a loop that still runs then.
  pub updatable_encrypt_and_upload :
      ℕ → Bytes → EncryptDraws → ℕ → Bytes → Bytes → ℕ → World → Run World
  updatable_encrypt_and_upload patience drawn_key d handle id message total_re_encrypts w = do
    let ae_key = ae_keygen drawn_key total_re_encrypts
    let buffer_length = 32 + length message + total_re_encrypts * layer_size
    r ← ae_encrypt e d ae_key message (fresh buffer_length) (length message)
    wrapped ← wrap_loop h patience handle (key_bytes ae_key) w.session
    key_handle ← handle_string handle
    store ←
        setall p b
          ((wrap_id id, wrapped.0)
            ∷ (header_id id, hat_bytes r.0)
            ∷ (data_id id, r.1)
            ∷ (root_version_id id, key_handle)
            ∷ [])
          w.store
    ok (record { store = store; session = wrapped.1 })

  -- The part behind the checks. The message is a C string in a buffer of the data's length, of
  -- which `alloc` are the bytes as allocated. Where the data is shorter than a header the length
  -- is negative, and AE_Decrypt leaves the buffer as it was.
  decrypt_opened : ℕ → (ℕ → Bytes) → Value → Value → Value → ℕ → World → Run (Option Bytes × World)
  decrypt_opened patience alloc wrap header data_value handle w = do
    wrapped ← or_fault wrap.bytes
    unwrapped ← unwrap_loop h patience handle wrapped w.session
    ae_key ← key_of_bytes unwrapped.0
    header_data ← or_fault header.bytes
    hat ← hat_of_bytes header_data
    ciphertext ← or_fault data_value.bytes
    let buffer = alloc (length ciphertext)
    decrypted ←
        (if ltb (length ciphertext) 32
          then ok buffer
          else ae_decrypt e ae_key hat ciphertext buffer (length ciphertext - 32))
    message ← or_fault (c_string decrypted)
    ok (some message, record w { session = unwrapped.1 })

  -- `none` is a return of -1.
  decrypt_downloaded :
      ℕ → (ℕ → Bytes) → Value → Value → Value → ℕ → World → Run (Option Bytes × World)
  unfolding decrypt_opened
  decrypt_downloaded patience alloc wrap header data_value handle w =
      if data_value.is_zero
      then ok (none, w)
      else if header.is_zero
      then ok (none, w)
      else decrypt_opened patience alloc wrap header data_value handle w

  pub updatable_download_and_decrypt : ℕ → (ℕ → Bytes) → Bytes → World → Run (Option Bytes × World)
  unfolding decrypt_downloaded
  updatable_download_and_decrypt patience alloc id w = do
    r ← getall p b (wrap_id id ∷ header_id id ∷ data_id id ∷ root_version_id id ∷ []) w.store
    elim r.0 [
      | wrap ∷ header ∷ data_value ∷ root ∷ [] ↦ do
        root_bytes ← or_fault root.bytes
        decrypt_downloaded patience alloc wrap header data_value (ulong (atoi root_bytes))
            (record { store = r.1; session = w.session })
      | _ ↦ fault
    ]

  -- The text of the request, made by `sprintf` into a buffer of its size, and sent with its NUL.
  unfoldable pub update_request : Bytes → Bytes → Bytes → Bytes
  update_request id new_wrap delta =
      join space (
        codes "UP_UPDATE"
        ∷ wrap_id id
        ∷ header_id id
        ∷ data_id id
        ∷ ctxt_version_id id
        ∷ new_wrap
        ∷ delta
        ∷ [])
      ++ (0 ∷ [])

  -- The part behind the decryption of the old key. A token that AE_ReKeyGen did not write is sent
  -- as it was on the stack, here `stack`.
  pub send_update :
      ℕ → Bytes → RekeyDraws → Bytes → Bytes → ℕ → AeKey → Bytes → ℕ → World → Run World
  unfolding update_request
  send_update patience drawn_key d stack id handle ae_key header total_re_encrypts w = do
    let ae_key2 = ae_keygen drawn_key total_re_encrypts
    wrapped2 ← wrap_loop h patience handle (key_bytes ae_key2) w.session
    hat ← hat_of_bytes header
    token ← ae_rekeygen e d ae_key ae_key2 hat
    let delta : Bytes = elim token [ none ↦ stack | some t ↦ delta_bytes t ]
    b64_delta ← or_fault (b.enc delta)
    b64_aekey_wrap2 ← or_fault (b.enc wrapped2.0)
    r ← p.serve_own (update_request id b64_aekey_wrap2 b64_delta) w.store
    ok (record { store = r.1; session = wrapped2.1 })

  -- `false` is a return of -1. The function returns no value where it succeeds, and does not look
  -- at the reply.
  pub updatable_update_dek_and_ciphertext :
      ℕ → Bytes → RekeyDraws → Bytes → Bytes → ℕ → World → Run (Bool × World)
  unfolding send_update
  updatable_update_dek_and_ciphertext patience drawn_key d stack id total_re_encrypts w = do
    r ← getall p b (wrap_id id ∷ header_id id ∷ root_version_id id ∷ []) w.store
    elim r.0 [
      | wrap ∷ header ∷ root ∷ [] ↦ do
        root_bytes ← or_fault root.bytes
        let got : World = record { store = r.1; session = w.session }
        elim wrap.bytes [
          | none ↦ ok (false, got)
          | some wrapped ↦ elim header.bytes [
            | none ↦ ok (false, got)
            | some header_data ↦ do
              unwrapped ← unwrap_or_fail h patience (ulong (atoi root_bytes)) wrapped w.session
              elim unwrapped.0 [
                | none ↦ ok (false, record got { session = unwrapped.1 })
                | some key_data ↦ do
                  ae_key ← key_of_bytes key_data
                  w' ←
                      send_update patience drawn_key d stack id (ulong (atoi root_bytes)) ae_key
                        header_data total_re_encrypts (record got { session = unwrapped.1 })
                  ok (true, w')
              ]
          ]
        ]
      | _ ↦ fault
    ]
