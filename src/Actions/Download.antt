-- ===== src/Actions/Download.antt =====
-- updatable_download_and_decrypt on values that hold a message.
use quicke_r.Prelude.{
  ℕ, ◌+◌, ◌-◌, ◌*◌, ◌^◌, ◌<◌, ◌≡◌, refl, ap, ◌∙◌, false, some, [], ◌∷◌, ◌++◌, append_assoc, List,
  Bytes, length, ltb, le→ltb, arith,
}
use quicke_r.Memory.{ok, ◌>>=◌}
use quicke_r.Memory.Regions.{parts}
use quicke_r.Crypto.Evp.{Evp, EvpLaws}
use quicke_r.Text.Int.{ulong, atoi}
use quicke_r.Nested.Layout.{layer_size, AeKey, CtHatDataEn, hat_bytes}
use quicke_r.Nested.Casts.{hat_of_bytes-hat_bytes}
use quicke_r.Nested.Chain.Law.{length-Holds}
use quicke_r.Nested.Decrypt.{ae_decrypt}
use quicke_r.Nested.Decrypt.Law.{ae_decrypt-Holds}
use quicke_r.Nested.Layers.{Holds}
use quicke_r.Server.Update.{Base64}
use quicke_r.Server.Values.{c_string}
use quicke_r.Server.Commands.Reply.{IsText, c_string-text}
use quicke_r.Client.{Peer, Value, getall}
use quicke_r.Hsm.{Hsm}
use quicke_r.Actions.{
  World, key_bytes, wrap_id, header_id, data_id, root_version_id, decrypt_opened,
  decrypt_downloaded, updatable_download_and_decrypt,
}
use quicke_r.Actions.Loops.{unwrap_loop}
use quicke_r.Actions.Values.{key_of_bytes-key_bytes}

-- The keys of a download.
abbrev pub asked_of : Bytes → List Bytes
asked_of id = wrap_id id ∷ header_id id ∷ data_id id ∷ root_version_id id ∷ []

-- A value that decoded.
abbrev pub held_value : Bytes → Value
held_value v = record { bytes = some v; is_zero = false }

module _ {e : Evp} (l : EvpLaws e) (p : Peer) (b : Base64) (h : Hsm) where
  opened :
      (patience : ℕ) (alloc : ℕ → Bytes) (wrapped extra : Bytes) (ae_key : AeKey)
      (hat : CtHatDataEn) (ct t : Bytes) (n room handle : ℕ) (w : World e p b h) (s' : h.Session)
      → ((k : ℕ) → length (alloc k) ≡ k)
      → ae_key.k_t < 2 ^ 32
      → unwrap_loop h patience handle wrapped w.session ≡ ok (key_bytes ae_key ++ extra, s')
      → Holds l ae_key.key hat ct (t ++ (0 ∷ [])) n room
      → IsText t
      → decrypt_opened e p b h patience alloc
          (held_value wrapped)
          (held_value (hat_bytes hat))
          (held_value ct)
          handle
          w
        ≡ ok (some t, record { store = w.store; session = s' })
  unfolding decrypt_opened
  opened patience alloc wrapped extra ae_key hat ct t n room handle w s' h_alloc h32 unwraps holds
        text =
      let m : Bytes = t ++ (0 ∷ []) in
      let size : length ct ≡ 32 + length m + layer_size * n + room = length-Holds l holds in
      let long : ltb (length ct) 32 ≡ false = le→ltb (length ct) 32 (omega (arith, size)) in
      let left : length ct - 32 ≡ length m + layer_size * n + room = omega (arith, size) in
      let f = parts (alloc (length ct)) (length m) (omega (arith, size, h_alloc (length ct))) in
      let decrypted : ae_decrypt e ae_key hat ct (alloc (length ct)) (length ct - 32)
          ≡ ok (m ++ f.back) =
        ap (λ k. ae_decrypt e ae_key hat ct (alloc (length ct)) k) left
        ∙ ap (λ buf. ae_decrypt e ae_key hat ct buf (length m + layer_size * n + room)) f.whole
        ∙ ae_decrypt-Holds l ae_key hat ct m f.front f.back n room holds f.size in
      let read : c_string (m ++ f.back) ≡ some t =
        ap c_string (append_assoc t (0 ∷ []) f.back) ∙ c_string-text t f.back text in
      rw
        (
          decrypt_opened,
          unwraps,
          ◌>>=◌,
          key_of_bytes-key_bytes ae_key extra holds.key_16 h32,
          hat_of_bytes-hat_bytes l ae_key.key hat ct m n room holds,
          long,
          decrypted,
          read,
        )
        refl

  -- When the four values are downloaded as they stand in a store that holds a message under any
  -- number of layers, the message a text with its NUL, and the wrapped key is unwrapped to bytes that
  -- begin with the key, then the download returns the text.
  pub updatable_download_and_decrypt-Holds :
      (patience : ℕ) (alloc : ℕ → Bytes) (id wrapped extra handle_text : Bytes) (ae_key : AeKey)
      (hat : CtHatDataEn) (ct t : Bytes) (n room handle : ℕ) (w : World e p b h) (store : p.World)
      (s' : h.Session)
      → ((k : ℕ) → length (alloc k) ≡ k)
      → ae_key.k_t < 2 ^ 32
      → ulong (atoi handle_text) ≡ handle
      → getall p b (asked_of id) w.store
        ≡ ok (
          held_value wrapped
              ∷ held_value (hat_bytes hat)
              ∷ held_value ct
              ∷ held_value handle_text
              ∷ [],
          store,
        )
      → unwrap_loop h patience handle wrapped w.session ≡ ok (key_bytes ae_key ++ extra, s')
      → Holds l ae_key.key hat ct (t ++ (0 ∷ [])) n room
      → IsText t
      → updatable_download_and_decrypt e p b h patience alloc id w
        ≡ ok (some t, record { store = store; session = s' })
  unfolding updatable_download_and_decrypt decrypt_downloaded
  updatable_download_and_decrypt-Holds patience alloc id wrapped extra handle_text ae_key hat ct t n
        room handle w store s' h_alloc h32 reads got unwraps holds text =
      rw (updatable_download_and_decrypt, got, ◌>>=◌, reads)
        (opened patience alloc wrapped extra ae_key hat ct t n room handle
          (record { store = store; session = w.session }) s' h_alloc h32 unwraps holds text)
