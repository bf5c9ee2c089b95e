-- ===== src/Wire/Upload.antt =====
-- An upload over the connection, and what the server then keeps.
use quicke_r.Server.Commands.{current_root_key}
use quicke_r.Prelude.{
  ℕ, ◌+◌, ◌*◌, ◌^◌, ◌≤◌, ◌<◌, ◌≡◌, sym, ap, subst, List, ◌∙◌, some, ◌++◌, Bytes, length, arith,
}
use quicke_r.Memory.{ok}
use quicke_r.Memory.Binds.{ok-injective}
use quicke_r.Nested.Casts.{length-hat_bytes}
use quicke_r.Nested.Chain.Law.{length-Holds}
use quicke_r.Crypto.Evp.{Evp, EvpLaws}
use quicke_r.Text.Decimal.{decimal}
use quicke_r.Text.Int.{ulong, atoi}
use quicke_r.Text.Split.{underscore, IsWord}
use quicke_r.Nested.Layout.{layer_size, CtHatDataEn, hat_bytes}
use quicke_r.Nested.Encrypt.{EncryptDraws, ae_keygen}
use quicke_r.Nested.Encrypt.Law.{IsDrawn}
use quicke_r.Server.Redis.{Redis}
use quicke_r.Server.Values.{get_value, set_value, ctxt_version}
use quicke_r.Server.Values.Found.{Found}
use quicke_r.Server.Update.{Base64}
use quicke_r.Server.Update.Recode.{base64_size, IsFaithful}
use quicke_r.Hsm.{Hsm, HsmLaws}
use quicke_r.Actions.{
  World, ctxt_version_id, key_bytes, handle_string, updatable_encrypt_and_upload,
}
use quicke_r.Actions.Loops.Ends.{Wraps, wrap_loop-ends, Wraps-Wrapped}
use quicke_r.Actions.Values.{handle_string-reads}
use quicke_r.Actions.Upload.{upload_lem}
use quicke_r.Wire.{Network, Ends, peer}
use quicke_r.Wire.Tokens.{IsToken}
use quicke_r.Wire.Stores.{HasRoom}
use quicke_r.Wire.Values.{Speaks, room_for, token_some, more_room, values_sent}
use quicke_r.Wire.Accepted.{texts_of, store_pairs-Found, store_pairs-counted}
use quicke_r.Wire.Kept.{Kept}
use quicke_r.Wire.Replaced.{Stays, store_pairs-aside}

module _ (r : Redis) {e : Evp} (l : EvpLaws e) {b : Base64} {f : IsFaithful b} (sp : Speaks f)
    {h : Hsm} (hl : HsmLaws h) (drawn_iv : Bytes) (hat2 : CtHatDataEn) (alloc : ℕ → Bytes)
    (n : Network) where
  -- The client and the server together.
  abbrev pub System : Type 0
  System = World e (peer r e b drawn_iv hat2 alloc n) b h

  -- What an upload for `id` under the master key `handle` needs: draws and a message of the sizes
  -- that the code asks for, an id that is a word without underscore, a handle that fits an
  -- int, the same root key at the server, and a counter that can be raised.
  pub record Uploadable (drawn_key : Bytes) (d : EncryptDraws) (handle : ℕ)
      (id message handle_text counter : Bytes) (total : ℕ) (w : System) : Type 0 where
    pub drawn : IsDrawn d
    pub key_16 : length drawn_key ≡ 16
    pub message_fits : length message < 2 ^ 31
    pub total_fits : total < 2 ^ 32
    pub id_token : IsToken id
    pub id_word : IsWord underscore id
    pub handle_fits : handle < 2 ^ 31
    pub handle_is : handle_string handle ≡ ok handle_text
    pub root_is : current_root_key r w.store.site.state ≡ some (f.text handle_text)
    pub counted : get_value r (ctxt_version ++ id) w.store.site.state.db ≡ some counter
    pub counter_fits : atoi counter + 1 < 1000000000

  -- An upload that the server accepts returns, and the server then keeps the message with room for as
  -- many updates as were asked for, and the counter one higher.
  pub upload-Kept :
      (patience k : ℕ) (drawn_key : Bytes) (d : EncryptDraws) (handle : ℕ)
      (id m handle_text counter wrapped : Bytes) (total : ℕ) (w : System) (s1 : h.Session)
      → Uploadable drawn_key d handle id m handle_text counter total w
      → Wraps h handle (key_bytes (ae_keygen drawn_key total)) k w.session wrapped s1
      → k < patience
      → HasRoom r w.store (
          49
          + 4 * length id
          + (base64_size (length wrapped)
              + base64_size 84
              + base64_size (32 + length m + total * layer_size)
              + base64_size 15))
      → (after : Ends r) × (updatable_encrypt_and_upload e
            (peer r e b drawn_iv hat2 alloc n)
            b
            h
            patience
            drawn_key
            d
            handle
            id
            m
            total
            w
          ≡ ok (record { store = after; session = s1 }))
        × Kept r l f hl id handle m
            (ae_keygen drawn_key total)
            wrapped
            0
            (total * layer_size)
            (atoi counter + 1)
            after.site.state.db
        × Stays r id w.store after
  unfolding ae_keygen ctxt_version_id
  upload-Kept patience k drawn_key d handle id m handle_text counter wrapped total w s1 u wraps k_lt
        room =
      let p = peer r e b drawn_iv hat2 alloc n in
      let (ht, ht_is, reads, ht_15) = handle_string-reads handle u.handle_fits in
      let same_ht : ht ≡ handle_text = ok-injective (sym ht_is ∙ u.handle_is) in
      let made =
        upload_lem l p b h patience drawn_key d handle id m total wrapped handle_text w s1 u.drawn
          u.key_16 u.message_fits u.handle_is
          (wrap_loop-ends h k patience handle (key_bytes (ae_keygen drawn_key total)) wrapped
            w.session s1 wraps k_lt) in
      let hat_text : Bytes = hat_bytes made.hat in
      let hat_84 =
        length-hat_bytes l drawn_key made.hat made.ct m 0 (total * layer_size) made.holds in
      let ct_size : length made.ct ≡ 32 + length m + total * layer_size =
        omega (arith, length-Holds l made.holds) in
      let ht_size : length handle_text ≡ 15 = ap length (sym same_ht) ∙ ht_15 in
      let is_wrapped = Wraps-Wrapped h hl wraps in
      let h1 = hl.length-Wrapped handle _ wrapped is_wrapped in
      let h2 : 1 ≤ length hat_text = omega (arith, hat_84) in
      let h3 : 1 ≤ length made.ct = omega (arith, ct_size) in
      let h4 : 1 ≤ length handle_text = omega (arith, ht_size) in
      let needed : room_for sp id wrapped hat_text made.ct handle_text
          ≤ 49
            + 4 * length id
            + (base64_size (length wrapped)
                + base64_size 84
                + base64_size (32 + length m + total * layer_size)
                + base64_size 15) =
        omega (arith, ap base64_size hat_84, ap base64_size ct_size, ap base64_size ht_size) in
      let raised : r.Db =
        set_value r (ctxt_version ++ id) (decimal (atoi counter + 1)) w.store.site.state.db in
      let (after, stored, left) =
        values_sent r e sp drawn_iv hat2 alloc n id wrapped hat_text made.ct handle_text counter
          w.store u.id_token u.id_word h1 h2 h3 h4 u.root_is u.counted u.counter_fits
          (more_room r e sp drawn_iv hat2 alloc n w.store _ _ needed room) in
      let texts : List (Bytes × Bytes) =
        texts_of id (f.text wrapped) (f.text hat_text) (f.text made.ct) (f.text handle_text) in
      let held =
        store_pairs-Found r id (f.text wrapped) (f.text hat_text) (f.text made.ct)
          (f.text handle_text) raised (token_some sp wrapped h1) (token_some sp hat_text h2)
          (token_some sp made.ct h3) (token_some sp handle_text h4) in
      (
        after,
        made.uploads after stored,
        record {
          hat = made.hat;
          ct = made.ct;
          handle_text = handle_text;
          holds = made.holds;
          key_fits = u.total_fits;
          is_wrapped = is_wrapped;
          reads = ap (λ s. ulong (atoi s)) (sym same_ht) ∙ reads;
          handle_15 = ht_size;
          found = subst (λ st. Found r st.db texts) (sym left.state_is) held;
          counted =
              ap (λ st. get_value r (ctxt_version ++ id) st.db) left.state_is
              ∙ store_pairs-counted r id (f.text wrapped) (f.text hat_text) (f.text made.ct)
                  (f.text handle_text) (atoi counter + 1) w.store.site.state.db;
        },
        record {
          root_key = ap (current_root_key r) left.state_is;
          site_size = left.site_size;
          client_size = left.client_size;
          aside = λ k out.
              ap (λ st. r.get st.db k) left.state_is
              ∙ store_pairs-aside r id (f.text wrapped) (f.text hat_text) (f.text made.ct)
                  (f.text handle_text) (decimal (atoi counter + 1)) w.store.site.state.db k out;
        },
      )
