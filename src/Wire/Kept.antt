-- ===== src/Wire/Kept.antt =====
-- What the server keeps of an updatable ciphertext between two operations on it.
use quicke_r.Prelude.{ℕ, ◌^◌, ◌<◌, ◌≡◌, ◌∙◌, some, false, ◌++◌, Bytes, length, same}
use quicke_r.Crypto.Evp.{Evp, EvpLaws}
use quicke_r.Text.Decimal.{decimal}
use quicke_r.Text.Int.{ulong, atoi}
use quicke_r.Nested.Layout.{AeKey, CtHatDataEn, hat_bytes}
use quicke_r.Nested.Layers.{Holds}
use quicke_r.Server.Redis.{Redis}
use quicke_r.Server.Values.{get_value, ctxt_version}
use quicke_r.Server.Values.Found.{Found}
use quicke_r.Server.Update.{Base64}
use quicke_r.Server.Update.Recode.{IsFaithful}
use quicke_r.Hsm.{Hsm, HsmLaws}
use quicke_r.Actions.{key_bytes, wrap_id, header_id, data_id, root_version_id, ctxt_version_id}
use quicke_r.Wire.{Ends}
use quicke_r.Wire.Replaced.{Stays, keys-Foreign, get_value-same}
use quicke_r.Wire.Accepted.{texts_of}

module _ (r : Redis) {e : Evp} (l : EvpLaws e) {b : Base64} (f : IsFaithful b) {h : Hsm}
    (hl : HsmLaws h) where
  -- The store holds, as texts under the keys of `id`, a header and a ciphertext that hold a message
  -- under `n` layers with `room` bytes of pad, their key wrapped under the master key, and its
  -- handle; and the counter stands at `count`.
  pub record Kept (id : Bytes) (handle : ℕ) (m : Bytes) (ae_key : AeKey) (wrapped : Bytes)
      (n room count : ℕ) (db : r.Db) : Type 0 where
    pub hat : CtHatDataEn
    pub ct : Bytes
    pub handle_text : Bytes
    pub holds : Holds l ae_key.key hat ct m n room
    pub key_fits : ae_key.k_t < 2 ^ 32
    pub is_wrapped : hl.Wrapped handle (key_bytes ae_key) wrapped
    pub reads : ulong (atoi handle_text) ≡ handle
    pub handle_15 : length handle_text ≡ 15
    pub found :
        Found r db
          (texts_of id (f.text wrapped) (f.text (hat_bytes hat)) (f.text ct) (f.text handle_text))
    pub counted : get_value r (ctxt_version ++ id) db ≡ some (decimal count)

  -- It is kept where the values under its keys are what they were.
  pub Kept-moves :
      {id : Bytes} {handle : ℕ} {m : Bytes} {ae_key : AeKey} {wrapped : Bytes} {n room count : ℕ}
      {db db' : r.Db}
      → r.get db' (wrap_id id) ≡ r.get db (wrap_id id)
      → r.get db' (header_id id) ≡ r.get db (header_id id)
      → r.get db' (data_id id) ≡ r.get db (data_id id)
      → r.get db' (root_version_id id) ≡ r.get db (root_version_id id)
      → r.get db' (ctxt_version_id id) ≡ r.get db (ctxt_version_id id)
      → Kept id handle m ae_key wrapped n room count db
      → Kept id handle m ae_key wrapped n room count db'
  unfolding ctxt_version_id
  Kept-moves h1 h2 h3 h4 h5 k = record {
    hat = k.hat;
    ct = k.ct;
    handle_text = k.handle_text;
    holds = k.holds;
    key_fits = k.key_fits;
    is_wrapped = k.is_wrapped;
    reads = k.reads;
    handle_15 = k.handle_15;
    found = (
      get_value-same r _ _ _ h1 ∙ k.found.0,
      (
        get_value-same r _ _ _ h2 ∙ k.found.1.0,
        (
          get_value-same r _ _ _ h3 ∙ k.found.1.1.0,
          (get_value-same r _ _ _ h4 ∙ k.found.1.1.1.0, tt),
        ),
      ),
    );
    counted = get_value-same r _ _ _ h5 ∙ k.counted;
  }

  -- What is done to one ciphertext leaves the others.
  pub Stays-Kept :
      {id other : Bytes} {handle : ℕ} {m : Bytes} {ae_key : AeKey} {wrapped : Bytes}
      {n room count : ℕ} {w after : Ends r}
      → same id other ≡ false
      → Stays r id w after
      → Kept other handle m ae_key wrapped n room count w.site.state.db
      → Kept other handle m ae_key wrapped n room count after.site.state.db
  Stays-Kept {id} {other} ne s k =
      let out = keys-Foreign id other ne in
      Kept-moves (s.aside (wrap_id other) out.0) (s.aside (header_id other) out.1)
        (s.aside (data_id other) out.2) (s.aside (root_version_id other) out.3)
        (s.aside (ctxt_version_id other) out.4) k
