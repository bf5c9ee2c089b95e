-- ===== src/Wire/Traffic/Law.antt =====
-- Requests within the budget keep the ciphertext, and each download gives its text.
use quicke_r.Server.Commands.{current_root_key}
use quicke_r.Prelude.{
  ℕ, suc, ◌+◌, ◌-◌, ◌*◌, ◌<◌, ◌≡◌, refl, ◌∙◌, some, List, [], ◌∷◌, ◌++◌, Bytes, length, replicate,
  All, arith,
}
use quicke_r.Memory.{ok}
use quicke_r.Crypto.Evp.{Evp, EvpLaws}
use quicke_r.Nested.Layout.{layer_size}
use quicke_r.Server.Redis.{Redis}
use quicke_r.Server.Update.{Base64}
use quicke_r.Server.Update.Recode.{IsFaithful}
use quicke_r.Hsm.{Hsm, HsmLaws}
use quicke_r.Actions.Loops.Answers.{Answers}
use quicke_r.Wire.Stores.{HasRoom}
use quicke_r.Wire.Values.{Speaks}
use quicke_r.Wire.Calls.{
  update, download, Parties, Living, calls_room, update_lives, download_lives,
}
use quicke_r.Wire.Traffic.{
  Request, call, upload, IsRequest, seen, changes, InBudget, run_request, run_requests,
  run_requests-then, IsSound, upload_lives,
}

module _ (r : Redis) {e : Evp} (l : EvpLaws e) {b : Base64} {f : IsFaithful b} (sp : Speaks f)
    {h : Hsm} (hl : HsmLaws h) (patience : ℕ) (a : Answers hl patience) (id t : Bytes)
    (handle total : ℕ) where
  -- After any requests within the budget, each download gave the text, and the server keeps it still,
  -- with a step of the counter for each upload and each update.
  pub run_requests-Living :
      (qs : List Request) (n left count : ℕ) (handle_text : Bytes) (x : Parties r e b h)
      → Living r l sp hl patience a id t handle n (left * layer_size) count x
      → n + left ≡ total
      → IsSound r l sp hl patience a id t handle total handle_text
      → All IsRequest qs
      → InBudget total left qs
      → current_root_key r x.0.site.state ≡ some (f.text handle_text)
      → count + changes qs < 1000000000
      → HasRoom r x.0
          (calls_room r l sp hl patience a id t handle (33 + length t + total * layer_size))
      → (x' : Parties r e b h) × (run_requests r e b h patience id handle (t ++ (0 ∷ [])) total qs x
          ≡ ok (replicate (seen qs) (some t), x'))
        × (n' : ℕ) × (left' : ℕ) × Living r l sp hl patience a id t handle n'
            (left' * layer_size)
            (count + changes qs)
            x'
  unfolding run_requests run_request
  run_requests-Living [] n left count handle_text x v whole s good budget root small rooms =
      let same_count : count + 0 ≡ count = omega arith in (x, refl, n, left, rw same_count v)
  run_requests-Living (call (update net u stack) ∷ qs) n left count handle_text x v whole s good
        budget root small rooms =
      let split : left * layer_size ≡ (left - 1) * layer_size + 96 = omega (arith, budget.0) in
      let size : 33 + length t + layer_size * n + ((left - 1) * layer_size + 96)
          ≡ 33 + length t + total * layer_size =
        omega (arith, budget.0, whole) in
      let (x1, ran, v1, stays) =
        update_lives r l sp hl patience a id t handle n ((left - 1) * layer_size) count net u stack
          x (rw split at v) s.id_token good.0 (omega (arith, small))
          (omega (arith, s.message_fits, whole, budget.0)) (rw size rooms) in
      let same_count : count + suc (changes qs) ≡ count + 1 + changes qs = omega arith in
      let (x2, rest, n', left', v2) =
        run_requests-Living qs (suc n) (left - 1) (count + 1) handle_text x1 v1
          (omega (arith, whole, budget.0)) s good.1 budget.1 (stays.root_key ∙ root)
          (omega (arith, small))
          (record {
            site_room = omega (arith, rooms.site_room, stays.site_size);
            client_room = omega (arith, rooms.client_room, stays.client_size);
          }) in
      (
        x2,
        run_requests-then r e b h patience id handle (t ++ (0 ∷ [])) total
            (call (update net u stack)) qs _ _ x x1 x2 ran rest,
        n',
        left',
        rw same_count v2,
      )
  run_requests-Living (call (download o) ∷ qs) n left count handle_text x v whole s good budget root
        small rooms =
      let size : 33 + length t + layer_size * n + left * layer_size
          ≡ 33 + length t + total * layer_size =
        omega (arith, whole) in
      let (x1, ran, v1, stays) =
        download_lives r l sp hl patience a id t handle n (left * layer_size) count o x v s.id_token
          s.text good.0 (rw size rooms) in
      let (x2, rest, n', left', v2) =
        run_requests-Living qs n left count handle_text x1 v1 whole s good.1 budget
          (stays.root_key ∙ root) small
          (record {
            site_room = omega (arith, rooms.site_room, stays.site_size);
            client_room = omega (arith, rooms.client_room, stays.client_size);
          }) in
      (
        x2,
        run_requests-then r e b h patience id handle (t ++ (0 ∷ [])) total (call (download o)) qs _
            _ x x1 x2 ran rest,
        n',
        left',
        v2,
      )
  run_requests-Living (upload net iv hat2 alloc key d ∷ qs) n left count handle_text x v whole s
        good budget root small rooms =
      let (x1, ran, v1, stays) =
        upload_lives r l sp hl patience a id t handle total n (left * layer_size) count net iv hat2
          alloc key d handle_text x v s good.0 root (omega (arith, small)) rooms in
      let same_count : count + suc (changes qs) ≡ count + 1 + changes qs = omega arith in
      let (x2, rest, n', left', v2) =
        run_requests-Living qs 0 total (count + 1) handle_text x1 v1 (omega arith) s good.1 budget
          (stays.root_key ∙ root) (omega (arith, small))
          (record {
            site_room = omega (arith, rooms.site_room, stays.site_size);
            client_room = omega (arith, rooms.client_room, stays.client_size);
          }) in
      (
        x2,
        run_requests-then r e b h patience id handle (t ++ (0 ∷ [])) total
            (upload net iv hat2 alloc key d) qs _ _ x x1 x2 ran rest,
        n',
        left',
        rw same_count v2,
      )
