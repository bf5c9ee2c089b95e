-- ===== src/Actions/Naive/Law.antt =====
-- What the operations on ciphertexts that are not updatable do: a download gives the message, and an
-- upload does not return.
use quicke_r.Prelude.{
  ℕ, ◌+◌, ◌≤◌, ◌≡◌, ◌≢◌, refl, sym, ap, ◌∙◌, Bool, true, false, some, List, [], ◌∷◌, ◌++◌,
  append_assoc, append-nil, Bytes, length, length-append, drop, drop-append, replicate, ◌==◌,
  if◌then◌else◌, arith,
}
use quicke_r.Memory.{Run, ok, ◌>>=◌, or_fault, poke, peek}
use quicke_r.Memory.Binds.{bind_ok}
use quicke_r.Memory.Regions.{peek_at}
use quicke_r.Crypto.Evp.{Evp, EvpLaws}
use quicke_r.Crypto.Gcm.{gcm_encrypt, gcm_decrypt}
use quicke_r.Crypto.Gcm.Open.{gcm_decrypt-seal}
use quicke_r.Text.Int.{print_int}
use quicke_r.Nested.Layout.{iv_len, header_size}
use quicke_r.Server.Update.{Base64}
use quicke_r.Client.{Peer, getall}
use quicke_r.Hsm.{Hsm}
use quicke_r.Actions.{World, wrap_id, data_id, root_version_id}
use quicke_r.Actions.Loops.{wrap_loop, unwrap_loop}
use quicke_r.Actions.Download.{held_value}
use quicke_r.Actions.Naive.{
  counted, no_length, encrypt_and_upload, get_pair, retry_pair, decrypt_pair, download_and_decrypt,
}

no_length_held : (v : Bytes) → 1 ≤ length v → no_length (held_value v) ≡ false
unfolding no_length
no_length_held v h = ground (arith, h)

module _ {e : Evp} (l : EvpLaws e) (p : Peer) (b : Base64) (h : Hsm) where
  -- An iv, the tag and the text of a message under a key, as download_and_decrypt reads them.
  abbrev pub naive_ciphertext : Bytes → Bytes → Bytes → Bytes
  naive_ciphertext key iv m = (iv ++ l.tag_of key iv m) ++ l.seal key iv m

  decrypt_pair-Sealed :
      (patience : ℕ) (alloc : ℕ → Bytes) (handle : ℕ) (wrapped key extra iv m : Bytes)
      (w : World e p b h) (s' : h.Session)
      → ((n : ℕ) → length (alloc n) ≡ n)
      → length key ≡ 16
      → length iv ≡ 16
      → unwrap_loop h patience handle wrapped w.session ≡ ok (key ++ extra, s')
      → decrypt_pair e p b h patience alloc handle
          (held_value wrapped, held_value (naive_ciphertext key iv m))
          w
        ≡ ok (some (some (length m), m), record { store = w.store; session = s' })
  unfolding decrypt_pair
  decrypt_pair-Sealed patience alloc handle wrapped key extra iv m w s' h_alloc hk hi unwraps =
      let tag : Bytes = l.tag_of key iv m in
      let text : Bytes = l.seal key iv m in
      let ht : length tag ≡ 16 = l.length-tag_of key iv m in
      let whole : naive_ciphertext key iv m ≡ iv ++ (tag ++ text) = append_assoc iv tag text in
      let key_read : peek (key ++ extra) 0 16 ≡ ok key = peek_at [] key extra 0 16 refl (sym hk) in
      let iv_read : peek (naive_ciphertext key iv m) 0 16 ≡ ok iv =
        ap (λ x. peek x 0 16) whole ∙ peek_at [] iv (tag ++ text) 0 16 refl (sym hi) in
      let tag_read : peek (naive_ciphertext key iv m) 16 16 ≡ ok tag =
        ap (λ x. peek x 16 16) whole ∙ peek_at iv tag text 16 16 (sym hi) (sym ht) in
      let dropped : drop 32 (naive_ciphertext key iv m) ≡ text =
        drop-append 32 (iv ++ tag) text (omega (arith, length-append iv tag)) in
      let size : length (alloc (length text)) ≡ length m =
        h_alloc (length text) ∙ l.length-seal key iv m in
      let opened : gcm_decrypt e text tag key iv 16 (alloc (length text)) 0
          ≡ ok (some (length m), m) =
        simp append-nil at
          (gcm_decrypt-seal e l key iv m [] (alloc (length text)) [] 0 hk hi refl size) in
      rw (decrypt_pair, unwraps, ◌>>=◌, key_read, iv_read, tag_read, dropped, opened) refl

  -- A download of a wrapped key and of an iv of 16 bytes with the tag and the text that GCM makes of a
  -- message under that key gives the message with its length, when the first getall finds both and the
  -- key, of 16 bytes, is unwrapped to bytes that begin with it. Buffers have the size asked for.
  pub download_and_decrypt-Sealed :
      (patience : ℕ) (alloc : ℕ → Bytes) (id : Bytes) (handle : ℕ) (wrapped key extra iv m : Bytes)
      (w : World e p b h) (store : p.World) (s' : h.Session)
      → ((n : ℕ) → length (alloc n) ≡ n)
      → length key ≡ 16
      → length iv ≡ 16
      → 1 ≤ length wrapped
      → getall p b (wrap_id id ∷ data_id id ∷ []) w.store
        ≡ ok (held_value wrapped ∷ held_value (naive_ciphertext key iv m) ∷ [], store)
      → unwrap_loop h patience handle wrapped w.session ≡ ok (key ++ extra, s')
      → download_and_decrypt e p b h patience alloc id handle w
        ≡ ok (some (some (length m), m), record { store = store; session = s' })
  unfolding download_and_decrypt get_pair retry_pair
  download_and_decrypt-Sealed patience alloc id handle wrapped key extra iv m w store s' h_alloc hk
        hi hw got unwraps =
      let ct : Bytes = naive_ciphertext key iv m in
      let first : no_length (held_value wrapped) ≡ false = no_length_held wrapped hw in
      let second : no_length (held_value ct) ≡ false = no_length_held ct (
        omega (
          arith,
          length-append (iv ++ l.tag_of key iv m) (l.seal key iv m),
          length-append iv (l.tag_of key iv m),
        )) in
      rw
        (
          download_and_decrypt, get_pair, got, ◌>>=◌, retry_pair, first, second, ◌>>=◌, first,
          second,
        )
        (decrypt_pair-Sealed patience alloc handle wrapped key extra iv m
          (record { store = store; session = w.session }) s' h_alloc hk hi unwraps)

counted_short : {A : Type 0} (a b c : A) (xs : List A) → counted 4 (a ∷ b ∷ c ∷ []) ≡ ok xs → ⊥
unfolding counted
counted_short a b c xs h = cc

module _ (e : Evp) (p : Peer) (b : Base64) (h : Hsm) where
  short_of_keys :
      (empty : Bool) (back : World e p b h) (read : Run Bytes)
      (store : List (Bytes × Bytes) → Run (Bool × World e p b h)) (w' : World e p b h)
      (first second : Bytes × Bytes) (name : Bytes)
      → (if empty
          then ok (false, back)
          else (read >>= (λ third. counted 4 (first ∷ second ∷ (name, third) ∷ []) >>= store)))
        ≡ ok (true, w')
      → ⊥
  short_of_keys true back read store w' first second name ran = cc
  short_of_keys false back read store w' first second name ran =
      let (third, _, r1) = bind_ok read _ ran in
      let (key_values, short, _) =
        bind_ok (counted 4 (first ∷ second ∷ (name, third) ∷ [])) store r1 in
      counted_short first second (name, third) key_values short

  -- encrypt_and_upload never returns 0: it asks setall for four values of its arrays of three.
  pub encrypt_and_upload-never_stores :
      (patience handle : ℕ) (aes_key drawn_iv stack id message : Bytes) (w w' : World e p b h)
      → encrypt_and_upload e p b h patience aes_key drawn_iv stack handle id message w
        ≢ ok (true, w')
  unfolding encrypt_and_upload
  encrypt_and_upload-never_stores patience handle aes_key drawn_iv stack id message w w' ran =
      let (wrapped, _, r1) = bind_ok (wrap_loop h patience handle aes_key w.session) _ ran in
      let (key_string, _, r2) = bind_ok (poke stack 0 (print_int handle ++ (0 ∷ []))) _ r1 in
      let (b64, _, r3) = bind_ok (or_fault (b.enc key_string)) _ r2 in
      let (with_iv, _, r4) = bind_ok (poke (replicate (32 + length message) 0) 0 drawn_iv) _ r3 in
      let (sealed, _, r5) =
        bind_ok (gcm_encrypt e message aes_key drawn_iv iv_len with_iv header_size) _ r4 in
      let (ciphertext, _, r6) = bind_ok (poke sealed.buffer 16 sealed.tag) _ r5 in
      short_of_keys (length wrapped.0 == 0) _ (peek (b64 ++ (0 ∷ [])) 0 15) _ w'
        (wrap_id id, wrapped.0) (data_id id, ciphertext) (root_version_id id) r6
