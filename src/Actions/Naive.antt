-- ===== src/Actions/Naive.antt =====
-- The operations of src/actions/actions.c on ciphertexts that are not updatable.
pub mod Law
use quicke_r.Prelude.{
  ℕ, zero, suc, ◌+◌, ◌-◌, ◌==◌, Bool, true, false, ◌||◌, Option, none, some, List, [], ◌∷◌, ◌++◌,
  Bytes, length, take, drop, replicate, ltb, leb, if◌then◌else◌,
}
use quicke_r.Memory.{Run, ok, fault, ◌>>=◌, or_fault, poke, peek}
use quicke_r.Crypto.Evp.{Evp}
use quicke_r.Crypto.Gcm.{gcm_encrypt, gcm_decrypt}
use quicke_r.Text.Int.{print_int}
use quicke_r.Nested.Layout.{iv_len, header_size}
use quicke_r.Server.Update.{Base64}
use quicke_r.Client.{Peer, Value, setall, getall}
use quicke_r.Hsm.{Hsm}
use quicke_r.Actions.{World, wrap_id, data_id, root_version_id}
use quicke_r.Actions.Loops.{wrap_loop, unwrap_loop, generate_new_k_master}

-- The first `n` elements of arrays that have these.
unfoldable pub counted : {A : Type 0} → ℕ → List A → Run (List A)
counted n xs = if leb n (length xs) then ok (take n xs) else fault

-- A length of 0 or less.
unfoldable pub no_length : Value → Bool
no_length v = elim v.bytes [ none ↦ true | some x ↦ length x == 0 ]

module _ (e : Evp) (p : Peer) (b : Base64) (h : Hsm) where
  -- `true` is a return of 0 and `false` one of EXIT_FAILURE. `stack` is `key_handle_string` before it
  -- is printed into. The encoded handle is sent by its first fifteen bytes, to be encoded again, and
  -- setall is asked for four values of the arrays of three.
  unfoldable pub encrypt_and_upload :
      ℕ → Bytes → Bytes → Bytes → ℕ → Bytes → Bytes → World e p b h → Run (Bool × World e p b h)
  encrypt_and_upload patience aes_key drawn_iv stack handle id message w = do
    wrapped ← wrap_loop h patience handle aes_key w.session
    key_handle_string ← poke stack 0 (print_int handle ++ (0 ∷ []))
    b64_key_handle ← or_fault (b.enc key_handle_string)
    with_iv ← poke (replicate (32 + length message) 0) 0 drawn_iv
    sealed ← gcm_encrypt e message aes_key drawn_iv iv_len with_iv header_size
    ciphertext ← poke sealed.buffer 16 sealed.tag
    let stored : Run (Bool × World e p b h) = do
      third ← peek (b64_key_handle ++ (0 ∷ [])) 0 15
      key_values ←
          counted 4
            ((wrap_id id, wrapped.0) ∷ (data_id id, ciphertext) ∷ (root_version_id id, third) ∷ [])
      store ← setall p b key_values w.store
      ok (true, record { store = store; session = wrapped.1 })
    if length wrapped.0 == 0
        then ok (false, record { store = w.store; session = wrapped.1 })
        else stored

  -- getall for the two keys.
  unfoldable pub get_pair : Bytes → p.World → Run ((Value × Value) × p.World)
  get_pair id store = do
    r ← getall p b (wrap_id id ∷ data_id id ∷ []) store
    elim r.0 [ wrap ∷ data_value ∷ rest ↦ ok ((wrap, data_value), r.1) | _ ↦ fault ]

  -- The loop that asks again while one of the two is missing, ten times at most.
  unfoldable pub retry_pair :
      ℕ → Bytes → (Value × Value) × p.World → Run ((Value × Value) × p.World)
  retry_pair zero id r = ok r
  retry_pair (suc left) id r = elim (no_length r.0.0 || no_length r.0.1) [
    | false ↦ ok r
    | true ↦ do again ← get_pair id r.1; retry_pair left id again
  ]

  -- The part behind the checks: the length that gcm_decrypt returns, `none` for -1, and the message
  -- buffer, which was allocated as `alloc` says.
  unfoldable pub decrypt_pair :
      ℕ
      → (ℕ → Bytes)
      → ℕ
      → Value × Value
      → World e p b h
      → Run (Option (Option ℕ × Bytes) × World e p b h)
  decrypt_pair patience alloc handle values w = do
    wrap ← or_fault values.0.bytes
    ciphertext ← or_fault values.1.bytes
    key ← unwrap_loop h patience handle wrap w.session
    decryption_key ← peek key.0 0 16
    iv ← peek ciphertext 0 iv_len
    tag ← peek ciphertext 16 16
    let text = drop 32 ciphertext
    r ← gcm_decrypt e text tag decryption_key iv iv_len (alloc (length text)) 0
    ok (some r, record { store = w.store; session = key.1 })

  -- `none` is a return of EXIT_FAILURE.
  unfoldable pub download_and_decrypt :
      ℕ → (ℕ → Bytes) → Bytes → ℕ → World e p b h → Run (Option (Option ℕ × Bytes) × World e p b h)
  download_and_decrypt patience alloc id handle w = do
    first ← get_pair id w.store
    r ← retry_pair 10 id first
    let got : World e p b h = record { store = r.1; session = w.session }
    if no_length r.0.0
        then ok (none, got)
        else if no_length r.0.1
        then ok (none, got)
        else decrypt_pair patience alloc handle r.0 got

  -- Further downloads after one that failed, five at most.
  unfoldable pub download_again :
      ℕ
      → ℕ
      → (ℕ → Bytes)
      → Bytes
      → ℕ
      → Option (Option ℕ × Bytes) × World e p b h
      → Run (Option (Option ℕ × Bytes) × World e p b h)
  download_again zero patience alloc id handle r = ok r
  download_again (suc left) patience alloc id handle r = elim r.0 [
    | some m ↦ ok r
    | none ↦ do
      again ← download_and_decrypt patience alloc id handle r.1
      download_again left patience alloc id handle again
  ]

  -- The message and its length as encrypt_and_upload gets them: a length of -1 is a fault there.
  unfoldable pub message_of : Option ℕ × Bytes → Run Bytes
  message_of (none, buffer) = fault
  message_of (some n, buffer) = peek buffer 0 n

  -- `false` is a return of -1; that of encrypt_and_upload is not looked at.
  unfoldable pub update_dek_key :
      ℕ
      → (ℕ → Bytes)
      → Bytes
      → Bytes
      → Bytes
      → Bytes
      → ℕ
      → World e p b h
      → Run (Bool × World e p b h)
  update_dek_key patience alloc aes_key drawn_iv stack id handle w = do
    first ← download_and_decrypt patience alloc id handle w
    r ← download_again 5 patience alloc id handle first
    elim r.0 [
      | none ↦ ok (false, r.1)
      | some m ↦ do
        message ← message_of m
        up ← encrypt_and_upload patience aes_key drawn_iv stack handle id message r.1
        ok (true, up.1)
    ]

  -- The loop of update_master_and_dek_key, with a key and an iv drawn for each ciphertext; one that
  -- cannot be downloaded is passed over.
  unfoldable pub rotate_loop :
      ℕ
      → (ℕ → Bytes)
      → Bytes
      → ℕ
      → ℕ
      → List (Bytes × Bytes × Bytes)
      → World e p b h
      → Run (World e p b h)
  rotate_loop patience alloc stack old_handle new_handle [] w = ok w
  rotate_loop patience alloc stack old_handle new_handle ((id, aes_key, drawn_iv) ∷ rest) w = do
    r ← download_and_decrypt patience alloc id old_handle w
    elim r.0 [
      | none ↦ rotate_loop patience alloc stack old_handle new_handle rest r.1
      | some m ↦ do
        message ← message_of m
        up ← encrypt_and_upload patience aes_key drawn_iv stack new_handle id message r.1
        rotate_loop patience alloc stack old_handle new_handle rest up.1
    ]

  -- The old master key stays.
  unfoldable pub update_master_and_dek_key :
      ℕ
      → (ℕ → Bytes)
      → Bytes
      → List (Bytes × Bytes × Bytes)
      → ℕ
      → World e p b h
      → Run (ℕ × World e p b h)
  update_master_and_dek_key patience alloc stack database_keys old_handle w = do
    let g = generate_new_k_master h w.session
    w' ←
        rotate_loop patience alloc stack old_handle g.1 database_keys
          (record { store = w.store; session = g.2 })
    ok (g.1, w')

  -- setup_redis_with_session: a message of 'a's for each key, whatever each upload returns.
  unfoldable pub setup_redis_with_session :
      ℕ → Bytes → ℕ → List (Bytes × Bytes × Bytes) → ℕ → World e p b h → Run (World e p b h)
  setup_redis_with_session patience stack message_size [] handle w = ok w
  setup_redis_with_session patience stack message_size ((id, aes_key, drawn_iv) ∷ rest) handle w =
      do
        up ←
            encrypt_and_upload patience aes_key drawn_iv stack handle id
              (replicate message_size b'a') w
        setup_redis_with_session patience stack message_size rest handle up.1
