-- ===== src/Wire/Life.antt =====
-- Upload and then download of an updatable ciphertext, from the client's keys over the server's
-- store and back.
use quicke_r.Prelude.{
  ℕ, ◌+◌, ◌*◌, ◌<◌, ◌≡◌, some, [], ◌∷◌, ◌++◌, Bytes, length, length-append, arith,
}
use quicke_r.Memory.{ok}
use quicke_r.Crypto.Evp.{Evp, EvpLaws}
use quicke_r.Text.Int.{atoi}
use quicke_r.Nested.Layout.{layer_size, CtHatDataEn}
use quicke_r.Nested.Encrypt.{EncryptDraws, ae_keygen}
use quicke_r.Server.Redis.{Redis}
use quicke_r.Server.Update.{Base64}
use quicke_r.Server.Update.Recode.{base64_size, IsFaithful}
use quicke_r.Server.Commands.Reply.{IsText}
use quicke_r.Hsm.{Hsm, HsmLaws}
use quicke_r.Actions.{key_bytes, updatable_encrypt_and_upload, updatable_download_and_decrypt}
use quicke_r.Actions.Loops.Ends.{Wraps, Unwraps}
use quicke_r.Wire.{Network, peer}
use quicke_r.Wire.Stores.{HasRoom}
use quicke_r.Wire.Upload.{System, Uploadable, upload-Kept}
use quicke_r.Wire.Download.{download-Kept}
use quicke_r.Wire.Values.{Speaks}

module _ (r : Redis) {e : Evp} (l : EvpLaws e) {b : Base64} {f : IsFaithful b} (sp : Speaks f)
    {h : Hsm} (hl : HsmLaws h) (drawn_iv : Bytes) (hat2 : CtHatDataEn) (alloc : ℕ → Bytes)
    (n : Network) where
  -- A text that is uploaded with its NUL under a master key, for any number of updates, is what a
  -- download then returns, and every call of both returns: when the draws, the id, the handle, the
  -- root key and the counter are as said, the hardware module wraps the key in one of the first
  -- attempts and unwraps it in one of the first attempts, and the buffers of both ends have room
  -- for the requests and the reply.
  pub download-upload :
      (patience k j : ℕ) (drawn_key : Bytes) (d : EncryptDraws) (handle : ℕ)
      (id t handle_text counter wrapped out : Bytes) (total : ℕ) (alloc2 : ℕ → Bytes)
      (w : System r l sp hl drawn_iv hat2 alloc n) (s1 s2 : h.Session)
      → Uploadable r l sp hl drawn_iv hat2 alloc n drawn_key d handle id
          (t ++ (0 ∷ []))
          handle_text
          counter
          total
          w
      → IsText t
      → ((i : ℕ) → length (alloc2 i) ≡ i)
      → Wraps h handle (key_bytes (ae_keygen drawn_key total)) k w.session wrapped s1
      → k < patience
      → Unwraps h handle wrapped j s1 out s2
      → j < patience
      → HasRoom r w.store (
          49
          + 4 * length id
          + (base64_size (length wrapped)
              + base64_size 84
              + base64_size (33 + length t + total * layer_size)
              + base64_size 15))
      → (w1 : System r l sp hl drawn_iv hat2 alloc n) × (updatable_encrypt_and_upload e
            (peer r e b drawn_iv hat2 alloc n)
            b
            h
            patience
            drawn_key
            d
            handle
            id
            (t ++ (0 ∷ []))
            total
            w
          ≡ ok w1)
        × (w2 : System r l sp hl drawn_iv hat2 alloc n) × (updatable_download_and_decrypt e
              (peer r e b drawn_iv hat2 alloc n)
              b
              h
              patience
              alloc2
              id
              w1
            ≡ ok (some t, w2))
  unfolding ae_keygen
  download-upload patience k j drawn_key d handle id t handle_text counter wrapped out total alloc2
        w s1 s2 u text h_alloc wraps k_lt unwraps j_lt room =
      let m : Bytes = t ++ (0 ∷ []) in
      let m_size = length-append t (0 ∷ []) in
      let rooms : ℕ =
        49
        + 4 * length id
        + (base64_size (length wrapped)
            + base64_size 84
            + base64_size (33 + length t + total * layer_size)
            + base64_size 15) in
      let same_m : 32 + length m + total * layer_size ≡ 33 + length t + total * layer_size =
        omega (arith, m_size) in
      let same_ct : 33 + length t + layer_size * 0 + total * layer_size
          ≡ 33 + length t + total * layer_size =
        omega arith in
      let (after, made, kept, stays) =
        upload-Kept r l sp hl drawn_iv hat2 alloc n patience k drawn_key d handle id m handle_text
          counter wrapped total w s1 u wraps k_lt (rw same_m room) in
      let (after2, got, left) =
        download-Kept r l sp hl drawn_iv hat2 alloc n patience j id t wrapped out handle 0
          (total * layer_size) (atoi counter + 1) (ae_keygen drawn_key total) alloc2 after s1 s2
          kept u.id_token text h_alloc unwraps j_lt
          (rw same_ct (record {
            site_room = omega (arith, room.site_room, stays.site_size);
            client_room = omega (arith, room.client_room, stays.client_size);
          })) in
      (record { store = after; session = s1 }, made, record { store = after2; session = s2 }, got)
