-- ===== src/Wire/Download.antt =====
-- A download over the connection, of a ciphertext that the server keeps.
use quicke_r.Prelude.{
  ℕ, ◌+◌, ◌*◌, ◌≤◌, ◌<◌, ◌≡◌, ap, ◌∙◌, some, [], ◌∷◌, ◌++◌, Bytes, length, length-append, arith,
}
use quicke_r.Memory.{ok}
use quicke_r.Crypto.Evp.{Evp, EvpLaws}
use quicke_r.Nested.Casts.{length-hat_bytes}
use quicke_r.Nested.Chain.Law.{length-Holds}
use quicke_r.Nested.Layout.{layer_size, AeKey, CtHatDataEn, hat_bytes}
use quicke_r.Server.Redis.{Redis}
use quicke_r.Server.Update.{Base64}
use quicke_r.Server.Update.Recode.{base64_size, IsFaithful}
use quicke_r.Server.Commands.Reply.{IsText}
use quicke_r.Hsm.{Hsm, HsmLaws}
use quicke_r.Actions.{updatable_download_and_decrypt}
use quicke_r.Actions.Loops.Ends.{Unwraps, unwrap_loop-ends, Unwraps-begins}
use quicke_r.Actions.Download.{updatable_download_and_decrypt-Holds}
use quicke_r.Wire.{Network, Ends, peer}
use quicke_r.Wire.Tokens.{IsToken}
use quicke_r.Wire.Stores.{HasRoom, Left}
use quicke_r.Wire.Values.{Speaks, room_for, more_room, values_back}
use quicke_r.Wire.Kept.{Kept}

module _ (r : Redis) {e : Evp} (l : EvpLaws e) {b : Base64} {f : IsFaithful b} (sp : Speaks f)
    {h : Hsm} (hl : HsmLaws h) (drawn_iv : Bytes) (hat2 : CtHatDataEn) (alloc : ℕ → Bytes)
    (net : Network) where
  -- A download of a text that the server keeps, under any number of layers, returns the text, and
  -- leaves the server's state as it was.
  pub download-Kept :
      (patience j : ℕ) (id t wrapped out : Bytes) (handle n room count : ℕ) (ae_key : AeKey)
      (alloc2 : ℕ → Bytes) (w : Ends r) (s1 s2 : h.Session)
      → Kept r l f hl id handle (t ++ (0 ∷ [])) ae_key wrapped n room count w.site.state.db
      → IsToken id
      → IsText t
      → ((i : ℕ) → length (alloc2 i) ≡ i)
      → Unwraps h handle wrapped j s1 out s2
      → j < patience
      → HasRoom r w (
          49
          + 4 * length id
          + (base64_size (length wrapped)
              + base64_size 84
              + base64_size (33 + length t + layer_size * n + room)
              + base64_size 15))
      → (after : Ends r) × (updatable_download_and_decrypt e
            (peer r e b drawn_iv hat2 alloc net)
            b
            h
            patience
            alloc2
            id
            (record { store = w; session = s1 })
          ≡ ok (some t, record { store = after; session = s2 }))
        × Left r w.site.state w after
  download-Kept patience j id t wrapped out handle n room count ae_key alloc2 w s1 s2 k id_token
        text h_alloc unwraps j_lt rooms =
      let p = peer r e b drawn_iv hat2 alloc net in
      let m : Bytes = t ++ (0 ∷ []) in
      let (extra, begins) = Unwraps-begins h hl k.is_wrapped unwraps in
      let hat_84 = length-hat_bytes l ae_key.key k.hat k.ct m n room k.holds in
      let ct_size : length k.ct ≡ 33 + length t + layer_size * n + room =
        omega (arith, length-Holds l k.holds, length-append t (0 ∷ [])) in
      let h1 = hl.length-Wrapped handle _ wrapped k.is_wrapped in
      let needed : room_for sp id wrapped (hat_bytes k.hat) k.ct k.handle_text
          ≤ 49
            + 4 * length id
            + (base64_size (length wrapped)
                + base64_size 84
                + base64_size (33 + length t + layer_size * n + room)
                + base64_size 15) =
        omega (arith, ap base64_size hat_84, ap base64_size ct_size, ap base64_size k.handle_15) in
      let (after, got, left) =
        values_back r e sp drawn_iv hat2 alloc net id wrapped (hat_bytes k.hat) k.ct k.handle_text w
          id_token h1 (omega (arith, hat_84)) (omega (arith, ct_size)) (omega (arith, k.handle_15))
          k.found (more_room r e sp drawn_iv hat2 alloc net w _ _ needed rooms) in
      (
        after,
        updatable_download_and_decrypt-Holds l p b h patience alloc2 id wrapped extra k.handle_text
            ae_key k.hat k.ct t n room handle (record { store = w; session = s1 }) after s2 h_alloc
            k.key_fits k.reads got
            (unwrap_loop-ends h j patience handle wrapped out s1 s2 unwraps j_lt
              ∙ ap (λ x. ok (x, s2)) begins)
            k.holds text,
        left,
      )
