-- ===== src/Actions/Rekey.antt =====
-- updatable_update_dek_and_ciphertext on values that hold a key and a header.
use quicke_r.Prelude.{ℕ, ◌^◌, ◌<◌, ◌≡◌, refl, true, some, List, [], ◌∷◌, ◌++◌, Bytes, length}
use quicke_r.Memory.{ok, ◌>>=◌}
use quicke_r.Crypto.Evp.{Evp}
use quicke_r.Text.Int.{ulong, atoi}
use quicke_r.Nested.Layout.{AeKey, CtHatDataEn, DeltaToken, hat_bytes, hat_of_bytes, delta_bytes}
use quicke_r.Nested.Encrypt.{ae_keygen}
use quicke_r.Nested.Update.{RekeyDraws, ae_rekeygen}
use quicke_r.Server.Update.{Base64}
use quicke_r.Client.{Peer, getall}
use quicke_r.Hsm.{Hsm}
use quicke_r.Actions.{
  World, key_bytes, wrap_id, header_id, root_version_id, update_request, send_update,
  updatable_update_dek_and_ciphertext,
}
use quicke_r.Actions.Loops.{wrap_loop, unwrap_or_fail}
use quicke_r.Actions.Values.{key_of_bytes-key_bytes}
use quicke_r.Actions.Download.{held_value}

-- The keys that an update reads.
abbrev pub needed_of : Bytes → List Bytes
needed_of id = wrap_id id ∷ header_id id ∷ root_version_id id ∷ []

module _ (e : Evp) (p : Peer) (b : Base64) (h : Hsm) where
  -- The request that an update makes goes out when the calls before it succeed.
  pub request_sent :
      (patience : ℕ) (drawn_key : Bytes) (d : RekeyDraws) (stack id : Bytes) (handle total : ℕ)
      (ae_key : AeKey) (hat : CtHatDataEn) (token : DeltaToken)
      (wrapped2 b64_wrap b64_delta : Bytes) (w : World e p b h) (s2 : h.Session) (reply : Bytes)
      (store' : p.World)
      → wrap_loop h patience handle (key_bytes (ae_keygen drawn_key total)) w.session
        ≡ ok (wrapped2, s2)
      → hat_of_bytes (hat_bytes hat) ≡ ok hat
      → ae_rekeygen e d ae_key (ae_keygen drawn_key total) hat ≡ ok (some token)
      → b.enc (delta_bytes token) ≡ some b64_delta
      → b.enc wrapped2 ≡ some b64_wrap
      → p.serve_own (update_request e p b h id b64_wrap b64_delta) w.store ≡ ok (reply, store')
      → send_update e p b h patience drawn_key d stack id handle ae_key (hat_bytes hat) total w
        ≡ ok (record { store = store'; session = s2 })
  unfolding send_update
  request_sent patience drawn_key d stack id handle total ae_key hat token wrapped2 b64_wrap
        b64_delta w s2 reply store' wraps reads rekeyed enc1 enc2 served =
      rw (send_update, wraps, ◌>>=◌, reads, ◌>>=◌, rekeyed, ◌>>=◌, enc1, ◌>>=◌, enc2, ◌>>=◌, served)
        refl

  pub updatable_update_lem :
      (patience : ℕ) (drawn_key : Bytes) (d : RekeyDraws)
      (stack id wrapped extra handle_text : Bytes) (handle total : ℕ) (ae_key : AeKey)
      (hat : CtHatDataEn) (w : World e p b h) (s1 : h.Session) (store : p.World)
      (after : World e p b h)
      → length ae_key.key ≡ 16
      → ae_key.k_t < 2 ^ 32
      → ulong (atoi handle_text) ≡ handle
      → getall p b (needed_of id) w.store
        ≡ ok (held_value wrapped ∷ held_value (hat_bytes hat) ∷ held_value handle_text ∷ [], store)
      → unwrap_or_fail h patience handle wrapped w.session
        ≡ ok (some (key_bytes ae_key ++ extra), s1)
      → send_update e p b h patience drawn_key d stack id handle ae_key
          (hat_bytes hat)
          total
          (record { store = store; session = s1 })
        ≡ ok after
      → updatable_update_dek_and_ciphertext e p b h patience drawn_key d stack id total w
        ≡ ok (true, after)
  unfolding updatable_update_dek_and_ciphertext
  updatable_update_lem patience drawn_key d stack id wrapped extra handle_text handle total ae_key
        hat w s1 store after h16 h32 reads got unwraps sent =
      rw
        (
          updatable_update_dek_and_ciphertext,
          got,
          ◌>>=◌,
          reads,
          unwraps,
          ◌>>=◌,
          key_of_bytes-key_bytes ae_key extra h16 h32,
          reads,
          sent,
        )
        refl
