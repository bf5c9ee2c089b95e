-- ===== src/Wire/Rekeyed.antt =====
-- An update of a ciphertext that the server keeps, from the client's getall over AE_ReKeyGen to the
-- server's AE_ReEncrypt and its stores.
use quicke_r.Server.Commands.{current_root_key}
use quicke_r.Prelude.{
  ℕ, suc, ◌+◌, ◌*◌, ◌^◌, ◌≤◌, ◌<◌, ◌≡◌, ◌==◌, sym, ap, subst, ◌∙◌, true, false, some, ◌++◌, Bytes,
  length, arith,
}
use quicke_r.Memory.{ok}
use quicke_r.Crypto.Evp.{Evp, EvpLaws}
use quicke_r.Text.Decimal.{decimal}
use quicke_r.Text.Int.{atoi, atoi-decimal}
use quicke_r.Nested.Layout.{layer_size, AeKey, CtHatDataEn, DeltaToken, hat_bytes, delta_bytes}
use quicke_r.Nested.Token.{length-delta_bytes}
use quicke_r.Nested.Casts.{hat_of_bytes-hat_bytes, length-hat_bytes}
use quicke_r.Nested.Chain.Law.{length-Holds}
use quicke_r.Nested.Decrypt.{key_and}
use quicke_r.Nested.Encrypt.{ae_keygen}
use quicke_r.Nested.Layers.{Holds}
use quicke_r.Nested.Update.{RekeyDraws, ae_rekeygen}
use quicke_r.Nested.Update.Rekey.{IsDrawn}
use quicke_r.Nested.Update.Law.{update-Holds}
use quicke_r.Server.Redis.{Redis}
use quicke_r.Server.Values.{get_value, ctxt_version}
use quicke_r.Server.Values.Found.{Found}
use quicke_r.Server.Update.{Base64, Request, Recoded, read_phase, recode, up_update}
use quicke_r.Server.Update.Recode.{base64_size, IsFaithful, Holding, recode_made}
use quicke_r.Server.Update.Stores.{updated_store, up_update-stores}
use quicke_r.Hsm.{Hsm, HsmLaws}
use quicke_r.Actions.{
  key_bytes, header_id, data_id, ctxt_version_id, updatable_update_dek_and_ciphertext,
}
use quicke_r.Actions.Loops.Ends.{
  Wraps, Reopens, wrap_loop-ends, unwrap_or_fail-ends, Reopens-Unwraps, Wraps-Wrapped,
  Unwraps-begins,
}
use quicke_r.Actions.Rekey.{request_sent, updatable_update_lem}
use quicke_r.Wire.{Network, Ends, peer}
use quicke_r.Wire.Tokens.{IsToken}
use quicke_r.Wire.Stores.{HasRoom}
use quicke_r.Wire.Values.{Speaks, token_some}
use quicke_r.Wire.Accepted.{texts_of}
use quicke_r.Wire.Kept.{Kept}
use quicke_r.Wire.Replaced.{request_of, updated_store-Found, updated_store-aside, Stays}
use quicke_r.Wire.Request.{request_served, needed_back}

-- What an update draws, at the client and at the server, and what the server's allocations hold.
pub record Draws : Type 0 where
  pub key : Bytes
  pub total : ℕ
  pub draws : RekeyDraws
  pub iv : Bytes
  pub hat2 : CtHatDataEn
  pub alloc : ℕ → Bytes

-- The sizes that the code asks for, and a history key whose bytes are not all zero bits in common.
pub record IsGood (u : Draws) : Type 0 where
  pub key_16 : length u.key ≡ 16
  pub total_fits : u.total < 2 ^ 32
  pub drawn : IsDrawn u.draws
  pub iv_16 : length u.iv ≡ 16
  pub history_some : (key_and u.draws.history_key == 0) ≡ false
  pub sized : (k : ℕ) → length (u.alloc k) ≡ k

module _ (r : Redis) {e : Evp} (l : EvpLaws e) {b : Base64} {f : IsFaithful b} (sp : Speaks f)
    {h : Hsm} (hl : HsmLaws h) where
  -- What the server's part of an update makes of a ciphertext that it keeps.
  pub record Recoding (u : Draws) (id : Bytes) (m : Bytes) (wrapped2 : Bytes) (n room : ℕ)
      (old : AeKey) (hat : CtHatDataEn) (db : r.Db) : Type 0 where
    pub token : DeltaToken
    pub rekeyed : ae_rekeygen e u.draws old (ae_keygen u.key u.total) hat ≡ ok (some token)
    pub token_184 : length (delta_bytes token) ≡ 184
    pub new_hat : CtHatDataEn
    pub new_ct : Bytes
    pub recoded :
        recode e b u.iv u.hat2 u.alloc
          (request_of id (f.text wrapped2) (f.text (delta_bytes token)))
          (read_phase r (request_of id (f.text wrapped2) (f.text (delta_bytes token))) db)
        ≡ ok (
            some
              (record { new_header = f.text (hat_bytes new_hat); new_ciphertext = f.text new_ct }))
    pub holds : Holds l u.key new_hat new_ct m (suc n) room

  recoding :
      (u : Draws) (id m wrapped wrapped2 : Bytes) (handle n room count : ℕ) (old : AeKey)
      (db : r.Db) (k : Kept r l f hl id handle m old wrapped n (room + 96) count db)
      → IsGood u
      → length m + layer_size * n + 96 < 2 ^ 31
      → Recoding u id m wrapped2 n room old k.hat db
  unfolding ae_keygen read_phase data_id header_id
  recoding u id m wrapped wrapped2 handle n room count old db k g fits =
      let key2 : AeKey = ae_keygen u.key u.total in
      let size = length-Holds l k.holds in
      let old_84 = length-hat_bytes l old.key k.hat k.ct m n (room + 96) k.holds in
      let made =
        update-Holds l u.draws u.iv old key2 k.hat u.hat2 k.ct (u.alloc (length k.ct)) m n room
          g.drawn g.iv_16 g.key_16 g.history_some k.holds fits
          (omega (arith, size, g.sized (length k.ct))) in
      let new_84 = length-hat_bytes l key2.key made.new_hat made.new_ct m (suc n) room made.holds in
      let q : Request = request_of id (f.text wrapped2) (f.text (delta_bytes made.delta)) in
      let holding : Holding b q (read_phase r q db) k.hat k.ct made.delta = record {
        header_text = f.text (hat_bytes k.hat);
        data_text = f.text k.ct;
        header_is = k.found.1.0;
        data_is = k.found.1.1.0;
        header_decodes = f.decodes (hat_bytes k.hat) (omega (arith, old_84));
        data_decodes = f.decodes k.ct (omega (arith, size));
        delta_decodes =
            f.decodes (delta_bytes made.delta)
              (omega (arith, length-delta_bytes made.delta made.is_token));
      } in
      record {
        token = made.delta;
        rekeyed = made.rekeyed;
        token_184 = length-delta_bytes made.delta made.is_token;
        new_hat = made.new_hat;
        new_ct = made.new_ct;
        recoded =
            recode_made l b f u.draws u.iv old key2 k.hat u.hat2 k.ct u.alloc m n room q
              (read_phase r q db) made holding
              (length-hat_bytes l old.key k.hat k.ct m n (room + 96) k.holds ∙ sym new_84)
              (omega (arith, size)) (omega (arith, new_84))
              (omega (arith, length-Holds l made.holds)) (omega (arith, size));
        holds = made.holds;
      }

  -- An update of a ciphertext that the server keeps, with room for one more layer, returns 0, and
  -- the server keeps the same message then, under the new key and one layer more, with 96 bytes of
  -- pad fewer and the counter one higher.
  pub update-Kept :
      (u : Draws) (n2 : Network) (patience j i : ℕ) (stack id m wrapped out wrapped2 : Bytes)
      (handle n room count : ℕ) (old : AeKey) (w : Ends r) (s s1 s2 : h.Session)
      (k : Kept r l f hl id handle m old wrapped n (room + 96) count w.site.state.db)
      → IsGood u
      → IsToken id
      → count + 1 < 1000000000
      → length m + layer_size * n + 96 < 2 ^ 31
      → Reopens h handle wrapped j s out s1
      → j < patience
      → Wraps h handle (key_bytes (ae_keygen u.key u.total)) i s1 wrapped2 s2
      → i < patience
      → HasRoom r w (
          50
          + 4 * length id
          + (base64_size (length wrapped) + base64_size 84 + base64_size 15)
          + (base64_size (length wrapped2) + base64_size 184))
      → (after : Ends r) × (updatable_update_dek_and_ciphertext e
            (peer r e b u.iv u.hat2 u.alloc n2)
            b
            h
            patience
            u.key
            u.draws
            stack
            id
            u.total
            (record { store = w; session = s })
          ≡ ok (true, record { store = after; session = s2 }))
        × Kept r l f hl id handle m
            (ae_keygen u.key u.total)
            wrapped2
            (suc n)
            room
            (count + 1)
            after.site.state.db
        × Stays r id w after
  unfolding ae_keygen ctxt_version_id
  update-Kept u n2 patience j i stack id m wrapped out wrapped2 handle n room count old w s s1 s2 k
        g id_token small fits reopens j_lt wraps i_lt rooms =
      let p = peer r e b u.iv u.hat2 u.alloc n2 in
      let key2 : AeKey = ae_keygen u.key u.total in
      let hat_text : Bytes = hat_bytes k.hat in
      let hat_84 = length-hat_bytes l old.key k.hat k.ct m n (room + 96) k.holds in
      let wrapped_some = hl.length-Wrapped handle _ wrapped k.is_wrapped in
      let (extra, begins) = Unwraps-begins h hl k.is_wrapped (Reopens-Unwraps h reopens) in
      let (got, reads, left) =
        needed_back r e b u.iv u.hat2 u.alloc n2 sp id wrapped hat_text k.handle_text w id_token
          wrapped_some (omega (arith, hat_84)) (omega (arith, k.handle_15))
          (k.found.0, (k.found.1.0, (k.found.1.1.1.0, tt)))
          (record {
            site_room =
                omega (arith, rooms.site_room, ap base64_size hat_84, ap base64_size k.handle_15);
            client_room =
                omega (arith, rooms.client_room, ap base64_size hat_84, ap base64_size k.handle_15);
          }) in
      let made =
        recoding u id m wrapped wrapped2 handle n room count old w.site.state.db k g fits in
      let is_wrapped2 = Wraps-Wrapped h hl wraps in
      let wrapped2_some = hl.length-Wrapped handle _ wrapped2 is_wrapped2 in
      let delta : Bytes = delta_bytes made.token in
      let q : Request = request_of id (f.text wrapped2) (f.text delta) in
      let c : Recoded = record {
        new_header = f.text (hat_bytes made.new_hat);
        new_ciphertext = f.text made.new_ct;
      } in
      let db2 : r.Db = updated_store r q c (decimal count) w.site.state.db in
      let read_count : atoi (decimal count) ≡ count = atoi-decimal count (omega (arith, small)) in
      let updated : up_update r e b u.iv u.hat2 u.alloc q w.site.state.db ≡ ok (true, db2) =
        up_update-stores r e b u.iv u.hat2 u.alloc q c (decimal count) w.site.state.db k.counted
          (omega (arith, read_count, small)) made.recoded in
      let delta_some : 1 ≤ length delta = omega (arith, made.token_184) in
      let (reply, after, served, left2) =
        request_served r e b u.iv u.hat2 u.alloc n2 p h id (f.text wrapped2) (f.text delta) db2 got
          id_token (sp.token wrapped2 wrapped2_some) (sp.token delta delta_some)
          (ap (λ st. up_update r e b u.iv u.hat2 u.alloc q st.db) left.state_is ∙ updated)
          (record {
            site_room = omega (
              arith,
              rooms.site_room,
              left.site_size,
              f.size wrapped2 wrapped2_some,
              f.size delta delta_some,
              ap base64_size made.token_184,
            );
            client_room = omega (
              arith,
              rooms.client_room,
              left.client_size,
              f.size wrapped2 wrapped2_some,
              f.size delta delta_some,
              ap base64_size made.token_184,
            );
          }) in
      let new_hat_84 =
        length-hat_bytes l key2.key made.new_hat made.new_ct m (suc n) room made.holds in
      let new_size = length-Holds l made.holds in
      let stored =
        updated_store-Found r id (f.text wrapped) (f.text hat_text) (f.text k.ct)
          (f.text k.handle_text) (f.text wrapped2) (f.text delta) (f.text (hat_bytes made.new_hat))
          (f.text made.new_ct) (decimal count) w.site.state.db k.found
          (token_some sp wrapped2 wrapped2_some)
          (token_some sp (hat_bytes made.new_hat) (omega (arith, new_hat_84)))
          (token_some sp made.new_ct (omega (arith, new_size))) in
      (
        after,
        updatable_update_lem e p b h patience u.key u.draws stack id wrapped extra k.handle_text
            handle u.total old k.hat (record { store = w; session = s }) s1 got
            (record { store = after; session = s2 }) k.holds.key_16 k.key_fits k.reads reads
            (unwrap_or_fail-ends h j patience handle wrapped out s s1 reopens j_lt
              ∙ ap (λ x. ok (some x, s1)) begins)
            (request_sent e p b h patience u.key u.draws stack id handle u.total old k.hat
              made.token wrapped2 (f.text wrapped2) (f.text delta)
              (record { store = got; session = s1 }) s2 reply after
              (wrap_loop-ends h i patience handle (key_bytes key2) wrapped2 s1 s2 wraps i_lt)
              (hat_of_bytes-hat_bytes l old.key k.hat k.ct m n (room + 96) k.holds) made.rekeyed
              (f.encodes delta delta_some) (f.encodes wrapped2 wrapped2_some) served),
        record {
          hat = made.new_hat;
          ct = made.new_ct;
          handle_text = k.handle_text;
          holds = made.holds;
          key_fits = g.total_fits;
          is_wrapped = is_wrapped2;
          reads = k.reads;
          handle_15 = k.handle_15;
          found =
              subst
                (λ st. Found r st.db (
                  texts_of id (f.text wrapped2) (f.text (hat_bytes made.new_hat))
                    (f.text made.new_ct) (f.text k.handle_text)))
                (sym left2.state_is) stored.0;
          counted =
              ap (λ st. get_value r (ctxt_version ++ id) st.db) left2.state_is
              ∙ stored.1
              ∙ ap (λ c. some (decimal (c + 1))) read_count;
        },
        record {
          root_key = ap (current_root_key r) left2.state_is ∙ ap (current_root_key r) left.state_is;
          site_size = left2.site_size ∙ left.site_size;
          client_size = left2.client_size ∙ left.client_size;
          aside = λ k out.
              ap (λ st. r.get st.db k) left2.state_is
              ∙ updated_store-aside r id (f.text wrapped2) (f.text delta) (decimal count) c
                  w.site.state.db k out;
        },
      )
