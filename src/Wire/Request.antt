-- ===== src/Wire/Request.antt =====
-- The two exchanges of an update: the three values that it reads, and its request.
use quicke_r.Prelude.{
  ℕ, ◌+◌, ◌*◌, ◌≤◌, ◌≡◌, refl, ap, ◌∙◌, true, List, [], ◌∷◌, Bytes, codes, length, length-append,
  All, arith,
}
use quicke_r.Memory.{ok}
use quicke_r.Crypto.Evp.{Evp}
use quicke_r.Text.Split.{space, join}
use quicke_r.Nested.Layout.{CtHatDataEn}
use quicke_r.Server.Redis.{Redis}
use quicke_r.Server.Values.Found.{Found}
use quicke_r.Server.Update.{Base64, up_update}
use quicke_r.Server.Update.Recode.{base64_size, IsFaithful}
use quicke_r.Server.Commands.{run_command}
use quicke_r.Server.Commands.Update.{run_command-update}
use quicke_r.Client.{Peer, getall}
use quicke_r.Client.Words.{getall_text}
use quicke_r.Hsm.{Hsm}
use quicke_r.Actions.{wrap_id, header_id, data_id, root_version_id, ctxt_version_id, update_request}
use quicke_r.Actions.Download.{held_value}
use quicke_r.Actions.Rekey.{needed_of}
use quicke_r.Wire.{Network, Ends, exchange_own, peer}
use quicke_r.Wire.Tokens.{
  IsToken, avoids, avoids-IsToken, append-IsToken, join-IsText, split_by_space-join,
}
use quicke_r.Wire.Exchange.{exchange_own_lem}
use quicke_r.Wire.Stores.{Reads_text, HasRoom, Left, getall-Found}
use quicke_r.Wire.Values.{Speaks, decoded_text}
use quicke_r.Wire.Replaced.{request_of}

-- The words of the request.
abbrev words_for : Bytes → Bytes → Bytes → List Bytes
words_for id new_wrap delta =
    codes "UP_UPDATE"
    ∷ wrap_id id
    ∷ header_id id
    ∷ data_id id
    ∷ ctxt_version_id id
    ∷ new_wrap
    ∷ delta
    ∷ []

words_tokens :
    (id new_wrap delta : Bytes)
    → IsToken id
    → IsToken new_wrap
    → IsToken delta
    → All IsToken (words_for id new_wrap delta)
unfolding wrap_id header_id data_id ctxt_version_id avoids
words_tokens id new_wrap delta h hw hd = (
  avoids-IsToken _ _ refl,
  (
    append-IsToken (codes "wrap_") id (avoids-IsToken _ _ refl) h,
    (
      append-IsToken (codes "header_") id (avoids-IsToken _ _ refl) h,
      (
        append-IsToken (codes "data_") id (avoids-IsToken _ _ refl) h,
        (append-IsToken (codes "ctxt_version_") id (avoids-IsToken _ _ refl) h, (hw, (hd, tt))),
      ),
    ),
  ),
)

length-words_for :
    (id new_wrap delta : Bytes)
    → length (join space (words_for id new_wrap delta))
      ≡ 45 + 4 * length id + (length new_wrap + length delta)
unfolding wrap_id header_id data_id ctxt_version_id
length-words_for id new_wrap delta = simp length-append (omega arith)

needed_tokens : (id : Bytes) → IsToken id → All IsToken (needed_of id)
unfolding wrap_id header_id root_version_id avoids
needed_tokens id h = (
  append-IsToken (codes "wrap_") id (avoids-IsToken _ _ refl) h,
  (
    append-IsToken (codes "header_") id (avoids-IsToken _ _ refl) h,
    (append-IsToken (codes "root_version_") id (avoids-IsToken _ _ refl) h, tt),
  ),
)

needed_sizes :
    (id v1 v2 v4 : Bytes)
    → (length (getall_text (needed_of id)) ≡ 34 + 3 * length id)
      × (length (join space (v1 ∷ v2 ∷ v4 ∷ [])) ≡ 2 + (length v1 + length v2 + length v4))
unfolding wrap_id header_id root_version_id
needed_sizes id v1 v2 v4 = (simp length-append (omega arith), simp length-append (omega arith))

module _ (r : Redis) (e : Evp) (b : Base64) (drawn_iv : Bytes) (hat2 : CtHatDataEn)
    (alloc : ℕ → Bytes) (n : Network) where
  -- The request of an update that the server carries out.
  pub request_served :
      (p : Peer) (h : Hsm) (id new_wrap delta : Bytes) (db : r.Db) (w : Ends r)
      → IsToken id
      → IsToken new_wrap
      → IsToken delta
      → up_update r e b drawn_iv hat2 alloc (request_of id new_wrap delta) w.site.state.db
        ≡ ok (true, db)
      → HasRoom r w (50 + 4 * length id + (length new_wrap + length delta))
      → (reply : Bytes) × (after : Ends r) × (exchange_own r e b drawn_iv hat2 alloc n
            (update_request e p b h id new_wrap delta)
            w
          ≡ ok (reply, after))
        × Left r (record w.site.state { db = db }) w after
  unfolding update_request
  request_served p h id new_wrap delta db w id_token wrap_token delta_token updated room =
      let words : List Bytes = words_for id new_wrap delta in
      let tokens : All IsToken words =
        words_tokens id new_wrap delta id_token wrap_token delta_token in
      let size = length-words_for id new_wrap delta in
      let (text, after, runs, state_is, site_size, client_size) =
        exchange_own_lem r e b drawn_iv hat2 alloc n (λ v. Unit) (join space words) []
          (record w.site.state { db = db }) w (join-IsText words tokens)
          (ap (λ ws. run_command r e b drawn_iv hat2 alloc ws w.site.state)
              (split_by_space-join words tokens)
            ∙ (run_command-update r e b drawn_iv hat2 alloc (request_of id new_wrap delta)
                w.site.state db updated))
          (Reads_text [] tt) (omega (arith, room.site_room, size)) (omega (arith, room.site_room))
          (omega (arith, size)) in
      (
        text,
        after,
        runs,
        record { state_is = state_is; site_size = site_size; client_size = client_size },
      )

  -- The three values that an update reads.
  pub needed_back :
      {f : IsFaithful b} (sp : Speaks f) (id v1 v2 v4 : Bytes) (w : Ends r)
      → IsToken id
      → 1 ≤ length v1
      → 1 ≤ length v2
      → 1 ≤ length v4
      → Found r w.site.state.db (
          (wrap_id id, f.text v1)
          ∷ (header_id id, f.text v2)
          ∷ (root_version_id id, f.text v4)
          ∷ [])
      → HasRoom r w (
          37
          + 3 * length id
          + (base64_size (length v1) + base64_size (length v2) + base64_size (length v4)))
      → (after : Ends r) × (getall (peer r e b drawn_iv hat2 alloc n) b (needed_of id) w
          ≡ ok (held_value v1 ∷ held_value v2 ∷ held_value v4 ∷ [], after))
        × Left r w.site.state w after
  needed_back {f} sp id v1 v2 v4 w id_token h1 h2 h4 found room =
      let sizes = needed_sizes id (f.text v1) (f.text v2) (f.text v4) in
      let l1 = f.size v1 h1 in
      let l2 = f.size v2 h2 in
      let l4 = f.size v4 h4 in
      let (after, got, left) =
        getall-Found r e b drawn_iv hat2 alloc n (wrap_id id, f.text v1)
          ((header_id id, f.text v2) ∷ (root_version_id id, f.text v4) ∷ []) w found
          (omega (arith, n.usable_least 3)) (needed_tokens id id_token)
          (sp.token v1 h1, (sp.token v2 h2, (sp.token v4 h4, tt)))
          (record {
            site_room = omega (arith, room.site_room, sizes.0);
            client_room = omega (arith, room.client_room, sizes.0);
          })
          (record {
            site_room = omega (arith, room.site_room, sizes.1, l1, l2, l4);
            client_room = omega (arith, room.client_room, sizes.1, l1, l2, l4);
          }) in
      (
        after,
        got ∙ rw (decoded_text sp v1 h1, decoded_text sp v2 h2, decoded_text sp v4 h4) refl,
        left,
      )
