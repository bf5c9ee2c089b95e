-- ===== src/Wire/Journey.antt =====
-- The life of an updatable ciphertext at the server: upload, then updates and downloads.
use quicke_r.Prelude.{
  ℕ, ◌+◌, ◌*◌, ◌^◌, ◌<◌, ◌≡◌, ap, ◌∙◌, some, List, [], ◌∷◌, ◌++◌, Bytes, length, length-append,
  replicate, All, arith,
}
use quicke_r.Memory.{ok}
use quicke_r.Crypto.Evp.{Evp, EvpLaws}
use quicke_r.Text.Decimal.{decimal}
use quicke_r.Text.Int.{atoi}
use quicke_r.Nested.Layout.{layer_size, CtHatDataEn}
use quicke_r.Nested.Encrypt.{EncryptDraws, ae_keygen}
use quicke_r.Server.Redis.{Redis}
use quicke_r.Server.Values.{get_value, ctxt_version}
use quicke_r.Server.Update.{Base64}
use quicke_r.Server.Update.Recode.{base64_size, IsFaithful}
use quicke_r.Server.Commands.Reply.{IsText}
use quicke_r.Hsm.{Hsm, HsmLaws}
use quicke_r.Actions.{key_bytes, updatable_encrypt_and_upload}
use quicke_r.Actions.Loops.Ends.{Wraps-Wrapped}
use quicke_r.Actions.Loops.Answers.{Answers}
use quicke_r.Wire.{Network, peer}
use quicke_r.Wire.Stores.{HasRoom}
use quicke_r.Wire.Values.{Speaks}
use quicke_r.Wire.Upload.{System, Uploadable, upload-Kept}
use quicke_r.Wire.Calls.{Parties, calls_room, length-key_bytes}
use quicke_r.Wire.Traffic.{Request, IsRequest, seen, changes, InBudget, run_requests}
use quicke_r.Wire.Traffic.Law.{run_requests-Living}

module _ (r : Redis) {e : Evp} (l : EvpLaws e) {b : Base64} {f : IsFaithful b} (sp : Speaks f)
    {h : Hsm} (hl : HsmLaws h) (drawn_iv : Bytes) (hat2 : CtHatDataEn) (alloc : ℕ → Bytes)
    (net : Network) where
  -- A text that is uploaded with its NUL for some number of updates, and is then updated, downloaded
  -- and uploaded again in any order, never updated more often since an upload than that number, is
  -- what each of the downloads returns; every call of them returns, and the ciphertext's counter ends
  -- one higher for each upload and each update. Each call has a network and draws of its own. The
  -- draws, the id, the handle, the root key and the counter are as said, the hardware module answers
  -- in the end, lengths fit an int, and the buffers of both ends have room for the requests and
  -- replies.
  pub run_requests-updatable_encrypt_and_upload :
      (patience : ℕ) (a : Answers hl patience) (drawn_key : Bytes) (d : EncryptDraws) (handle : ℕ)
      (id t handle_text counter : Bytes) (total : ℕ) (qs : List Request)
      (w : System r l sp hl drawn_iv hat2 alloc net)
      → Uploadable r l sp hl drawn_iv hat2 alloc net drawn_key d handle id
          (t ++ (0 ∷ []))
          handle_text
          counter
          total
          w
      → IsText t
      → All IsRequest qs
      → InBudget total total qs
      → atoi counter + 1 + changes qs < 1000000000
      → 33 + length t + total * layer_size < 2 ^ 31
      → HasRoom r w.store
          (calls_room r l sp hl patience a id t handle (33 + length t + total * layer_size))
      → (w1 : System r l sp hl drawn_iv hat2 alloc net) × (updatable_encrypt_and_upload e
            (peer r e b drawn_iv hat2 alloc net)
            b
            h
            patience
            drawn_key
            d
            handle
            id
            (t ++ (0 ∷ []))
            total
            w
          ≡ ok w1)
        × (x : Parties r e b h) × (run_requests r e b h patience id handle
              (t ++ (0 ∷ []))
              total
              qs
              (w1.store, w1.session)
            ≡ ok (replicate (seen qs) (some t), x))
        × (get_value r (ctxt_version ++ id) x.0.site.state.db
            ≡ some (decimal (atoi counter + 1 + changes qs)))
  run_requests-updatable_encrypt_and_upload patience a drawn_key d handle id t handle_text counter
        total qs w u text good budget small fits rooms =
      let m_size = length-append t (0 ∷ []) in
      let (k, wrapped, s1, wraps, k_lt) =
        a.wraps handle (key_bytes (ae_keygen drawn_key total)) w.session in
      let size : length wrapped ≡ a.size 20 =
        a.length-is handle _ wrapped (Wraps-Wrapped h hl wraps)
        ∙ ap a.size (length-key_bytes r l sp hl patience a id t handle drawn_key total u.key_16) in
      let same_m : 32 + length (t ++ (0 ∷ [])) + total * layer_size
          ≡ 33 + length t + total * layer_size =
        omega (arith, m_size) in
      let (after, made, kept, stays) =
        upload-Kept r l sp hl drawn_iv hat2 alloc net patience k drawn_key d handle id
          (t ++ (0 ∷ [])) handle_text counter wrapped total w s1 u wraps k_lt
          (rw same_m (record {
            site_room = omega (arith, rooms.site_room, ap base64_size size);
            client_room = omega (arith, rooms.client_room, ap base64_size size);
          })) in
      let (x, ran, n', left', living) =
        run_requests-Living r l sp hl patience a id t handle total qs 0 total (atoi counter + 1)
          handle_text (after, s1)
          (record {
            ae_key = ae_keygen drawn_key total;
            wrapped = wrapped;
            kept = kept;
            wrapped_size = size;
          })
          (omega arith)
          (record {
            text = text;
            message_fits = fits;
            total_fits = u.total_fits;
            id_token = u.id_token;
            id_word = u.id_word;
            handle_fits = u.handle_fits;
            handle_is = u.handle_is;
          })
          good budget (stays.root_key ∙ u.root_is) small
          (record {
            site_room = omega (arith, rooms.site_room, stays.site_size);
            client_room = omega (arith, rooms.client_room, stays.client_size);
          }) in
      (record { store = after; session = s1 }, made, x, ran, living.kept.counted)
