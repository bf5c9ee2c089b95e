-- ===== src/Wire/Traffic.antt =====
-- Uploads, updates and downloads of a ciphertext in any order.
pub mod Law
use quicke_r.Server.Commands.{current_root_key}
use quicke_r.Prelude.{
  ℕ, suc, ◌+◌, ◌-◌, ◌*◌, ◌^◌, ◌≤◌, ◌<◌, ◌≡◌, refl, sym, ap, subst, ◌∙◌, Option, some, List, [], ◌∷◌,
  ◌++◌, Bytes, length, length-append, replicate, All, arith,
}
use quicke_r.Memory.{Run, ok, ◌>>=◌}
use quicke_r.Crypto.Evp.{Evp, EvpLaws}
use quicke_r.Text.Decimal.{decimal}
use quicke_r.Text.Int.{atoi, atoi-decimal}
use quicke_r.Text.Split.{underscore, IsWord}
use quicke_r.Nested.Layout.{layer_size, CtHatDataEn}
use quicke_r.Nested.Encrypt.{EncryptDraws, ae_keygen}
use quicke_r.Nested.Encrypt.Law.{IsDrawn}
use quicke_r.Server.Redis.{Redis}
use quicke_r.Server.Values.{c_string}
use quicke_r.Server.Update.{Base64}
use quicke_r.Server.Update.Recode.{base64_size, IsFaithful}
use quicke_r.Server.Commands.Reply.{IsText}
use quicke_r.Hsm.{Hsm, HsmLaws}
use quicke_r.Actions.{key_bytes, handle_string, updatable_encrypt_and_upload}
use quicke_r.Actions.Loops.Ends.{Wraps-Wrapped}
use quicke_r.Actions.Loops.Answers.{Answers}
use quicke_r.Wire.{Network, peer}
use quicke_r.Wire.Tokens.{IsToken}
use quicke_r.Wire.Stores.{HasRoom}
use quicke_r.Wire.Values.{Speaks}
use quicke_r.Wire.Replaced.{Stays, Stays-refl, Stays-trans}
use quicke_r.Wire.Upload.{upload-Kept}
use quicke_r.Wire.Calls.{
  Call, update, download, IsCall, Parties, run_call, Living, calls_room, length-key_bytes,
  update_lives, download_lives,
}

-- An update, a download, or an upload with its own network and draws.
pub data Request : Type 0 where
  call : Call → Request
  upload : Network → Bytes → CtHatDataEn → (ℕ → Bytes) → Bytes → EncryptDraws → Request

abbrev pub IsRequest : Request → Type 0
IsRequest (call c) = IsCall c
IsRequest (upload n iv hat2 alloc key d) = (length key ≡ 16) × IsDrawn d

-- How many requests are downloads, and how many raise the counter.
abbrev pub seen : List Request → ℕ
seen [] = 0
seen (call (update n u stack) ∷ rs) = seen rs
seen (call (download o) ∷ rs) = suc (seen rs)
seen (upload n iv hat2 alloc key d ∷ rs) = seen rs

abbrev pub changes : List Request → ℕ
changes [] = 0
changes (call (update n u stack) ∷ rs) = suc (changes rs)
changes (call (download o) ∷ rs) = changes rs
changes (upload n iv hat2 alloc key d ∷ rs) = suc (changes rs)

-- Each update finds room, of which an upload makes enough for `total`.
abbrev pub InBudget : ℕ → ℕ → List Request → Type 0
InBudget total left [] = Unit
InBudget total left (call (update n u stack) ∷ rs) = (1 ≤ left) × InBudget total (left - 1) rs
InBudget total left (call (download o) ∷ rs) = InBudget total left rs
InBudget total left (upload n iv hat2 alloc key d ∷ rs) = InBudget total total rs

module _ (r : Redis) (e : Evp) (b : Base64) (h : Hsm) where
  unfoldable pub run_request :
      ℕ
      → Bytes
      → ℕ
      → Bytes
      → ℕ
      → Request
      → Parties r e b h
      → Run (List (Option Bytes) × Parties r e b h)
  run_request patience id handle message total (call c) x = run_call r e b h patience id c x
  run_request patience id handle message total (upload n iv hat2 alloc key d) x = do
    w ←
        updatable_encrypt_and_upload e (peer r e b iv hat2 alloc n) b h patience key d handle id
          message total (record { store = x.0; session = x.1 })
    ok ([], (w.store, w.session))

  -- What the downloads of the requests returned.
  unfoldable pub run_requests :
      ℕ
      → Bytes
      → ℕ
      → Bytes
      → ℕ
      → List Request
      → Parties r e b h
      → Run (List (Option Bytes) × Parties r e b h)
  unfolding run_request
  run_requests patience id handle message total [] x = ok ([], x)
  run_requests patience id handle message total (q ∷ qs) x = do
    first ← run_request patience id handle message total q x
    rest ← run_requests patience id handle message total qs first.1
    ok (first.0 ++ rest.0, rest.1)

  pub run_requests-then :
      (patience : ℕ) (id : Bytes) (handle : ℕ) (message : Bytes) (total : ℕ) (q : Request)
      (qs : List Request) (first rest : List (Option Bytes)) (x x1 x2 : Parties r e b h)
      → run_request patience id handle message total q x ≡ ok (first, x1)
      → run_requests patience id handle message total qs x1 ≡ ok (rest, x2)
      → run_requests patience id handle message total (q ∷ qs) x ≡ ok (first ++ rest, x2)
  unfolding run_requests
  run_requests-then patience id handle message total q qs first rest x x1 x2 ran later =
      rw (run_requests, ran, ◌>>=◌, later) refl

module _ (r : Redis) {e : Evp} (l : EvpLaws e) {b : Base64} {f : IsFaithful b} (sp : Speaks f)
    {h : Hsm} (hl : HsmLaws h) (patience : ℕ) (a : Answers hl patience) (id t : Bytes)
    (handle total : ℕ) where
  -- What the code asks of an upload of the text under the master key.
  pub record IsSound (handle_text : Bytes) : Type 0 where
    pub text : IsText t
    pub message_fits : 33 + length t + total * layer_size < 2 ^ 31
    pub total_fits : total < 2 ^ 32
    pub id_token : IsToken id
    pub id_word : IsWord underscore id
    pub handle_fits : handle < 2 ^ 31
    pub handle_is : handle_string handle ≡ ok handle_text

  pub upload_lives :
      (n room count : ℕ) (net : Network) (iv : Bytes) (hat2 : CtHatDataEn) (alloc : ℕ → Bytes)
      (key : Bytes) (d : EncryptDraws) (handle_text : Bytes) (x : Parties r e b h)
      → Living r l sp hl patience a id t handle n room count x
      → IsSound handle_text
      → (length key ≡ 16) × IsDrawn d
      → current_root_key r x.0.site.state ≡ some (f.text handle_text)
      → count + 1 < 1000000000
      → HasRoom r x.0
          (calls_room r l sp hl patience a id t handle (33 + length t + total * layer_size))
      → (x' : Parties r e b h) × (run_request r e b h patience id handle
            (t ++ (0 ∷ []))
            total
            (upload net iv hat2 alloc key d)
            x
          ≡ ok ([], x'))
        × Living r l sp hl patience a id t handle 0 (total * layer_size) (count + 1) x'
        × Stays r id x.0 x'.0
  unfolding run_request
  upload_lives n room count net iv hat2 alloc key d handle_text x v s good root small rooms =
      let m_size = length-append t (0 ∷ []) in
      let (k, wrapped, s1, wraps, k_lt) = a.wraps handle (key_bytes (ae_keygen key total)) x.1 in
      let size : length wrapped ≡ a.size 20 =
        a.length-is handle _ wrapped (Wraps-Wrapped h hl wraps)
        ∙ ap a.size (length-key_bytes r l sp hl patience a id t handle key total good.0) in
      let same_m : 32 + length (t ++ (0 ∷ [])) + total * layer_size
          ≡ 33 + length t + total * layer_size =
        omega (arith, m_size) in
      let (after, made, kept, stays) =
        upload-Kept r l sp hl iv hat2 alloc net patience k key d handle id (t ++ (0 ∷ []))
          handle_text (decimal count) wrapped total (record { store = x.0; session = x.1 }) s1
          (record {
            drawn = good.1;
            key_16 = good.0;
            message_fits = omega (arith, m_size, s.message_fits);
            total_fits = s.total_fits;
            id_token = s.id_token;
            id_word = s.id_word;
            handle_fits = s.handle_fits;
            handle_is = s.handle_is;
            root_is = root;
            counted = v.kept.counted;
            counter_fits = omega (arith, atoi-decimal count (omega (arith, small)), small);
          })
          wraps k_lt
          (rw same_m (record {
            site_room = omega (arith, rooms.site_room, ap base64_size size);
            client_room = omega (arith, rooms.client_room, ap base64_size size);
          })) in
      (
        (after, s1),
        rw (run_request, made) refl,
        record {
          ae_key = ae_keygen key total;
          wrapped = wrapped;
          kept = rw (atoi-decimal count (omega (arith, small))) at kept;
          wrapped_size = size;
        },
        stays,
      )
