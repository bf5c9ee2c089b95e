-- ===== src/Wire/Values.antt =====
-- The four values of an upload, over the connection into the server's store and back.
use quicke_r.Server.Commands.{current_root_key}
use quicke_r.Prelude.{
  ℕ, ◌+◌, ◌*◌, ◌≤◌, ◌<◌, ◌≡◌, ◌≢◌, refl, ap, ◌∙◌, true, false, some, [], ◌∷◌, ◌++◌, Bytes, codes,
  length, length-append, All, arith,
}
use quicke_r.Memory.{ok}
use quicke_r.Crypto.Evp.{Evp}
use quicke_r.Text.Decimal.{decimal}
use quicke_r.Text.Int.{atoi}
use quicke_r.Text.Split.{space, underscore, join, IsWord}
use quicke_r.Nested.Layout.{CtHatDataEn}
use quicke_r.Server.Redis.{Redis}
use quicke_r.Server.Values.{get_value, set_value, ctxt_version, store_pairs, setall_values}
use quicke_r.Server.Values.Found.{Found}
use quicke_r.Server.Update.{Base64}
use quicke_r.Server.Update.Recode.{base64_size, IsFaithful}
use quicke_r.Client.{setall, getall}
use quicke_r.Client.Words.{words_of, setall_text, getall_text}
use quicke_r.Client.Replies.{decoded}
use quicke_r.Actions.{wrap_id, header_id, data_id, root_version_id}
use quicke_r.Actions.Download.{held_value}
use quicke_r.Wire.{Network, Ends, peer}
use quicke_r.Wire.Tokens.{IsToken, avoids-IsToken, append-IsToken, avoids}
use quicke_r.Wire.Stores.{HasRoom, Left, setall-setall_values, getall-Found}
use quicke_r.Wire.Accepted.{entries_of, texts_of, upload_accepted}

-- The texts of base64 are words, and only no bytes decode with length 0.
pub record Speaks {b : Base64} (f : IsFaithful b) : Type 0 where
  pub token : (x : Bytes) → 1 ≤ length x → IsToken (f.text x)
  pub not_zero : (x : Bytes) → 1 ≤ length x → b.dec_zero (f.text x) ≡ false

id_tokens :
    (id : Bytes)
    → IsToken id
    → All IsToken (wrap_id id ∷ header_id id ∷ data_id id ∷ root_version_id id ∷ [])
unfolding wrap_id header_id data_id root_version_id avoids
id_tokens id h = (
  append-IsToken (codes "wrap_") id (avoids-IsToken _ _ refl) h,
  (
    append-IsToken (codes "header_") id (avoids-IsToken _ _ refl) h,
    (
      append-IsToken (codes "data_") id (avoids-IsToken _ _ refl) h,
      (append-IsToken (codes "root_version_") id (avoids-IsToken _ _ refl) h, tt),
    ),
  ),
)

-- What the four texts take in the requests and the reply.
request_sizes :
    (id v1 v2 v3 v4 : Bytes)
    → (length (
          join space (
            codes "SETALL"
            ∷ wrap_id id
            ∷ v1
            ∷ header_id id
            ∷ v2
            ∷ data_id id
            ∷ v3
            ∷ root_version_id id
            ∷ v4
            ∷ []))
        ≡ 44 + 4 * length id + (length v1 + length v2 + length v3 + length v4))
      × (length (getall_text (wrap_id id ∷ header_id id ∷ data_id id ∷ root_version_id id ∷ []))
          ≡ 40 + 4 * length id)
      × (length (join space (v1 ∷ v2 ∷ v3 ∷ v4 ∷ []))
          ≡ 3 + (length v1 + length v2 + length v3 + length v4))
unfolding wrap_id header_id data_id root_version_id
request_sizes id v1 v2 v3 v4 = (
  simp length-append (omega arith),
  simp length-append (omega arith),
  simp length-append (omega arith),
)

module _ {b : Base64} {f : IsFaithful b} (sp : Speaks f) where
  -- The texts of values that are not empty.
  pub texts_tokens :
      (v1 v2 v3 v4 : Bytes)
      → 1 ≤ length v1
      → 1 ≤ length v2
      → 1 ≤ length v3
      → 1 ≤ length v4
      → All IsToken (f.text v1 ∷ f.text v2 ∷ f.text v3 ∷ f.text v4 ∷ [])
  texts_tokens v1 v2 v3 v4 h1 h2 h3 h4 =
      (sp.token v1 h1, (sp.token v2 h2, (sp.token v3 h3, (sp.token v4 h4, tt))))

  pub decoded_text : (v : Bytes) → 1 ≤ length v → decoded b (f.text v) ≡ held_value v
  decoded_text v h = rw (f.decodes v h, sp.not_zero v h) refl

  pub token_some : (v : Bytes) → 1 ≤ length v → 1 ≤ length (f.text v)
  token_some v h = not_empty (f.text v) (sp.token v h).0.0
    where
      not_empty : (w : Bytes) → w ≢ [] → 1 ≤ length w
      not_empty [] ne = absurd (ne refl)
      not_empty (c ∷ w) ne = omega arith

  -- A size that is enough for the requests and the reply.
  abbrev pub room_for : Bytes → Bytes → Bytes → Bytes → Bytes → ℕ
  room_for id v1 v2 v3 v4 =
      49
      + 4 * length id
      + (base64_size (length v1)
          + base64_size (length v2)
          + base64_size (length v3)
          + base64_size (length v4))

  rooms :
      (id v1 v2 v3 v4 : Bytes)
      → 1 ≤ length v1
      → 1 ≤ length v2
      → 1 ≤ length v3
      → 1 ≤ length v4
      → (length (setall_text b (entries_of f id v1 v2 v3 v4)) + 5 ≤ room_for id v1 v2 v3 v4)
        × (length (getall_text (wrap_id id ∷ header_id id ∷ data_id id ∷ root_version_id id ∷ []))
              + 3
            ≤ room_for id v1 v2 v3 v4)
        × (length (join space (f.text v1 ∷ f.text v2 ∷ f.text v3 ∷ f.text v4 ∷ [])) + 5
            ≤ room_for id v1 v2 v3 v4)
  rooms id v1 v2 v3 v4 h1 h2 h3 h4 =
      let sizes = request_sizes id (f.text v1) (f.text v2) (f.text v3) (f.text v4) in
      let l1 = f.size v1 h1 in
      let l2 = f.size v2 h2 in
      let l3 = f.size v3 h3 in
      let l4 = f.size v4 h4 in
      (
        omega (arith, sizes.0, l1, l2, l3, l4),
        omega (arith, sizes.1, l1, l2, l3, l4),
        omega (arith, sizes.2, l1, l2, l3, l4),
      )

module _ (r : Redis) (e : Evp) {b : Base64} {f : IsFaithful b} (sp : Speaks f) (drawn_iv : Bytes)
    (hat2 : CtHatDataEn) (alloc : ℕ → Bytes) (n : Network) where
  pub more_room : (w : Ends r) (j k : ℕ) → j ≤ k → HasRoom r w k → HasRoom r w j
  more_room w j k le h = record {
    site_room = omega (arith, h.site_room);
    client_room = omega (arith, h.client_room);
  }

  -- The four values go over the connection, when the server's root key is the text of the last and
  -- the ciphertext's counter can be raised.
  pub values_sent :
      (id v1 v2 v3 v4 counter : Bytes) (w : Ends r)
      → IsToken id
      → IsWord underscore id
      → 1 ≤ length v1
      → 1 ≤ length v2
      → 1 ≤ length v3
      → 1 ≤ length v4
      → current_root_key r w.site.state ≡ some (f.text v4)
      → get_value r (ctxt_version ++ id) w.site.state.db ≡ some counter
      → atoi counter + 1 < 1000000000
      → HasRoom r w (room_for sp id v1 v2 v3 v4)
      → (after : Ends r) × (setall (peer r e b drawn_iv hat2 alloc n) b (texts_of id v1 v2 v3 v4) w
          ≡ ok after)
        × Left r
            (record w.site.state {
              db =
                  store_pairs r
                    (texts_of id (f.text v1) (f.text v2) (f.text v3) (f.text v4))
                    (set_value r (ctxt_version ++ id) (decimal (atoi counter + 1)) w.site.state.db);
            })
            w
            after
  values_sent id v1 v2 v3 v4 counter w token word h1 h2 h3 h4 root counted small room =
      let t = texts_tokens sp v1 v2 v3 v4 h1 h2 h3 h4 in
      let names = id_tokens id token in
      setall-setall_values r e b drawn_iv hat2 alloc n (wrap_id id, v1, f.text v1)
        ((header_id id, v2, f.text v2)
          ∷ (data_id id, v3, f.text v3)
          ∷ (root_version_id id, v4, f.text v4)
          ∷ [])
        true _ w (f.encodes v1 h1, (f.encodes v2 h2, (f.encodes v3 h3, (f.encodes v4 h4, tt))))
        (
          names.0,
          (t.0, (names.1.0, (t.1.0, (names.1.1.0, (t.1.1.0, (names.1.1.1.0, (t.1.1.1.0, tt))))))),
        )
        (ap (λ k. setall_values r k (words_of (entries_of f id v1 v2 v3 v4)) w.site.state.db) root
          ∙ upload_accepted r id (f.text v1) (f.text v2) (f.text v3) (f.text v4) counter
              w.site.state.db word counted small)
        (more_room w _ _ (rooms sp id v1 v2 v3 v4 h1 h2 h3 h4).0 room)

  -- And come back out of a store that holds their texts.
  pub values_back :
      (id v1 v2 v3 v4 : Bytes) (w : Ends r)
      → IsToken id
      → 1 ≤ length v1
      → 1 ≤ length v2
      → 1 ≤ length v3
      → 1 ≤ length v4
      → Found r w.site.state.db (texts_of id (f.text v1) (f.text v2) (f.text v3) (f.text v4))
      → HasRoom r w (room_for sp id v1 v2 v3 v4)
      → (after : Ends r) × (getall
            (peer r e b drawn_iv hat2 alloc n)
            b
            (wrap_id id ∷ header_id id ∷ data_id id ∷ root_version_id id ∷ [])
            w
          ≡ ok (held_value v1 ∷ held_value v2 ∷ held_value v3 ∷ held_value v4 ∷ [], after))
        × Left r w.site.state w after
  values_back id v1 v2 v3 v4 w token h1 h2 h3 h4 found room =
      let (after, got, left) =
        getall-Found r e b drawn_iv hat2 alloc n (wrap_id id, f.text v1)
          ((header_id id, f.text v2)
            ∷ (data_id id, f.text v3)
            ∷ (root_version_id id, f.text v4)
            ∷ [])
          w found (omega (arith, n.usable_least 4)) (id_tokens id token)
          (texts_tokens sp v1 v2 v3 v4 h1 h2 h3 h4)
          (more_room w _ _ (rooms sp id v1 v2 v3 v4 h1 h2 h3 h4).1 room)
          (more_room w _ _ (rooms sp id v1 v2 v3 v4 h1 h2 h3 h4).2 room) in
      (
        after,
        got
            ∙ rw
                (
                  decoded_text sp v1 h1,
                  decoded_text sp v2 h2,
                  decoded_text sp v3 h3,
                  decoded_text sp v4 h4,
                )
                refl,
        left,
      )
