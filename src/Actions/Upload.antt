-- ===== src/Actions/Upload.antt =====
-- What updatable_encrypt_and_upload sends to be stored.
use quicke_r.Prelude.{
  ℕ, ◌+◌, ◌*◌, ◌^◌, ◌<◌, ◌≡◌, refl, [], ◌∷◌, append-nil, List, Bytes, length, length-replicate,
}
use quicke_r.Memory.{ok, ◌>>=◌}
use quicke_r.Crypto.Evp.{Evp, EvpLaws}
use quicke_r.Nested.Layout.{layer_size, CtHatDataEn, hat_bytes}
use quicke_r.Nested.Encrypt.{EncryptDraws, ae_keygen, fresh}
use quicke_r.Nested.Encrypt.Law.{IsDrawn, ae_encrypt-Holds}
use quicke_r.Nested.Layers.{Holds}
use quicke_r.Server.Update.{Base64}
use quicke_r.Client.{Peer, setall}
use quicke_r.Hsm.{Hsm}
use quicke_r.Actions.{
  World, key_bytes, handle_string, wrap_id, header_id, data_id, root_version_id,
  updatable_encrypt_and_upload,
}
use quicke_r.Actions.Loops.{wrap_loop}

-- The four pairs of an upload.
abbrev pub uploaded : Bytes → Bytes → CtHatDataEn → Bytes → Bytes → List (Bytes × Bytes)
uploaded id wrapped hat ct handle_text =
    (wrap_id id, wrapped)
    ∷ (header_id id, hat_bytes hat)
    ∷ (data_id id, ct)
    ∷ (root_version_id id, handle_text)
    ∷ []

module _ {e : Evp} (l : EvpLaws e) (p : Peer) (b : Base64) (h : Hsm) where
  -- The ciphertext that an upload makes, which holds the message, and what the upload then is: the
  -- setall of the four values.
  pub record Made (patience : ℕ) (drawn_key : Bytes) (d : EncryptDraws) (handle : ℕ)
      (id message : Bytes) (total : ℕ) (wrapped handle_text : Bytes) (w : World e p b h)
      (s' : h.Session) : Type 0 where
    pub hat : CtHatDataEn
    pub ct : Bytes
    pub holds : Holds l drawn_key hat ct message 0 (total * layer_size)
    pub uploads :
        (store : p.World)
        → setall p b (uploaded id wrapped hat ct handle_text) w.store ≡ ok store
        → updatable_encrypt_and_upload e p b h patience drawn_key d handle id message total w
          ≡ ok (record { store = store; session = s' })

  pub upload_lem :
      (patience : ℕ) (drawn_key : Bytes) (d : EncryptDraws) (handle : ℕ) (id message : Bytes)
      (total : ℕ) (wrapped handle_text : Bytes) (w : World e p b h) (s' : h.Session)
      → IsDrawn d
      → length drawn_key ≡ 16
      → length message < 2 ^ 31
      → handle_string handle ≡ ok handle_text
      → wrap_loop h patience handle (key_bytes (ae_keygen drawn_key total)) w.session
        ≡ ok (wrapped, s')
      → Made patience drawn_key d handle id message total wrapped handle_text w s'
  unfolding updatable_encrypt_and_upload ae_keygen
  upload_lem patience drawn_key d handle id message total wrapped handle_text w s' hd hk hm text
        wraps =
      let n : ℕ = 32 + length message + total * layer_size in
      let (hat, ct, made, holds) =
        ae_encrypt-Holds l d (ae_keygen drawn_key total) message [] (fresh n) hd hk hm
          (length-replicate {A = ℕ} n 0) in
      record {
        hat = hat;
        ct = ct;
        holds = holds;
        uploads = λ store stored.
            rw
              (
                updatable_encrypt_and_upload,
                rw (append-nil message) at made,
                ◌>>=◌,
                wraps,
                text,
                stored,
              )
              refl;
      }
