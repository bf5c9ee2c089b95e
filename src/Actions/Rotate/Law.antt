-- ===== src/Actions/Rotate/Law.antt =====
-- update_master_key puts every key under the new master key and changes nothing else.
use quicke_r.Prelude.{
  ℕ, suc, ◌≤◌, ◌≡◌, refl, ◌∙◌, subst, true, false, Option, some, List, [], ◌∷◌, ◌++◌, Bytes, length,
  map, All, same, same→eq, same_refl, if◌then◌else◌, Bool-cases, inl, inr, arith,
}
use quicke_r.Memory.{ok, ◌>>=◌}
use quicke_r.Crypto.Evp.{Evp}
use quicke_r.Server.Update.{Base64}
use quicke_r.Client.{Peer, set, get}
use quicke_r.Hsm.{Hsm, HsmLaws}
use quicke_r.Wire.Tokens.{IsToken}
use quicke_r.Actions.{World, wrap_id}
use quicke_r.Actions.Loops.{generate_new_k_master}
use quicke_r.Actions.Rotate.{
  unwrap_again, wrap_again, downloaded, rewrap_one, rewrap_loop, delete_old_k_master,
  update_master_key,
}

-- A server whose GET and SET are those of a map, on keys that are words and values that are not
-- empty: what get and set of the client do with it.
module _ (p : Peer) (b : Base64) where
  pub record KeyStore : Type 0 where
    pub view : p.World → Bytes → Option Bytes
    pub get-view :
        (key : Bytes) (w : p.World)
        → IsToken key
        → (w' : p.World) × (get p b key w ≡ ok (view w key, w'))
          × ((j : Bytes) → view w' j ≡ view w j)
    pub set-view :
        (key value : Bytes) (w : p.World)
        → IsToken key
        → 1 ≤ length value
        → (w' : p.World) × (set p b key value w ≡ ok w')
          × ((j : Bytes) → view w' j ≡ (if same key j then some value else view w j))

module _ {h : Hsm} (hl : HsmLaws h) where
  -- The module wraps under the new handle, and unwraps what was wrapped under the old.
  pub record Available (old new : ℕ) : Type 0 where
    pub wraps :
        (plain : Bytes) (s : h.Session)
        → (out : Bytes) × (s' : h.Session) × (h.encrypt new plain s ≡ ok (0, out, s'))
    pub unwraps :
        (plain wrapped : Bytes) (s : h.Session)
        → hl.Wrapped old plain wrapped
        → (out : Bytes) × (s' : h.Session) × (h.decrypt old wrapped s ≡ ok (0, out, s'))

  unwrap_again_first :
      (patience handle : ℕ) (wrapped out : Bytes) (s s' : h.Session)
      → h.decrypt handle wrapped s ≡ ok (0, out, s')
      → unwrap_again h (suc patience) handle wrapped s ≡ ok (out, s')
  unfolding unwrap_again
  unwrap_again_first patience handle wrapped out s s' e = rw (unwrap_again, e) refl

  wrap_again_first :
      (patience handle : ℕ) (plain out : Bytes) (s s' : h.Session)
      → h.encrypt handle plain s ≡ ok (0, out, s')
      → wrap_again h (suc patience) handle plain s ≡ ok (out, s')
  unfolding wrap_again
  wrap_again_first patience handle plain out s s' e = rw (wrap_again, e) refl

downloaded-some : (v : Bytes) → 1 ≤ length v → downloaded (some v) ≡ some v
unfolding downloaded
downloaded-some v h = ground (arith, h)

same_sym : (a c : Bytes) → same a c ≡ false → same c a ≡ false
same_sym a c h = elim (Bool-cases (same c a)) [
  | inl eq ↦ absurd (let e : c ≡ a = same→eq c a eq in ground (arith, rw e at h, same_refl a))
  | inr ne ↦ ne
]

module _ (e : Evp) {p : Peer} {b : Base64} (k : KeyStore p b) {h : Hsm} (hl : HsmLaws h)
    (old new : ℕ) where
  -- The key of a ciphertext is in the store, wrapped under the old handle.
  abbrev pub IsHeld : p.World → Bytes × Bytes → Type 0
  IsHeld store kp =
      (wrapped : Bytes) × (k.view store (wrap_id kp.0) ≡ some wrapped) × hl.Wrapped old kp.1 wrapped

  -- It is there wrapped under the new one, as the front of what is wrapped.
  abbrev pub IsRenewed : p.World → Bytes × Bytes → Type 0
  IsRenewed store kp =
      (rest : Bytes) × (wrapped : Bytes) × (k.view store (wrap_id kp.0) ≡ some wrapped)
      × hl.Wrapped new (kp.1 ++ rest) wrapped

  -- No two ids have the same key in the store.
  abbrev pub Distinct : List (Bytes × Bytes) → Type 0
  Distinct [] = Unit
  Distinct (kp ∷ kps) =
      All (λ other. same (wrap_id kp.0) (wrap_id other.0) ≡ false) kps × Distinct kps

  rewrap_one-Renewed :
      (patience : ℕ) (kp : Bytes × Bytes) (w : World e p b h)
      → Available hl old new
      → IsToken (wrap_id kp.0)
      → IsHeld w.store kp
      → (w' : World e p b h) × (rewrap_one e p b h (suc patience) old new kp.0 w ≡ ok (true, w'))
        × IsRenewed w'.store kp
        × ((j : Bytes) → same (wrap_id kp.0) j ≡ false → k.view w'.store j ≡ k.view w.store j)
  unfolding rewrap_one
  rewrap_one-Renewed patience kp w a token (wrapped, seen, is_wrapped) =
      let (store1, got, kept1) = k.get-view (wrap_id kp.0) w.store token in
      let (out, s1, opened) = a.unwraps kp.1 wrapped w.session is_wrapped in
      let (rest, begins) = hl.decrypt-Wrapped old kp.1 wrapped out w.session s1 is_wrapped opened in
      let (wrapped2, s2, closed) = a.wraps out s1 in
      let is_wrapped2 = hl.encrypt-Wrapped new out wrapped2 s1 s2 closed in
      let (store2, put, kept2) =
        k.set-view (wrap_id kp.0) wrapped2 store1 token
          (hl.length-Wrapped new out wrapped2 is_wrapped2) in
      (
        record { store = store2; session = s2 },
        rw
            (
              rewrap_one,
              got,
              ◌>>=◌,
              seen,
              downloaded-some wrapped (hl.length-Wrapped old kp.1 wrapped is_wrapped),
              unwrap_again_first hl patience old wrapped out w.session s1 opened,
              ◌>>=◌,
              wrap_again_first hl patience new out wrapped2 s1 s2 closed,
              ◌>>=◌,
              put,
            )
            refl,
        (
          rest,
          wrapped2,
          kept2 (wrap_id kp.0) ∙ rw (same_refl (wrap_id kp.0)) refl,
          subst (λ x. hl.Wrapped new x wrapped2) begins is_wrapped2,
        ),
        λ j other. kept2 j ∙ rw other (kept1 j),
      )

  -- What the loop leaves: every key renewed, and all else as it was.
  abbrev pub Renewed : List (Bytes × Bytes) → World e p b h → World e p b h → Type 0
  Renewed kps w w' =
      All (IsRenewed w'.store) kps
      × ((j : Bytes)
          → All (λ kp. same (wrap_id kp.0) j ≡ false) kps
          → k.view w'.store j ≡ k.view w.store j)

  All-IsHeld :
      (kp : Bytes × Bytes) (kps : List (Bytes × Bytes)) (store store' : p.World)
      → ((j : Bytes) → same (wrap_id kp.0) j ≡ false → k.view store' j ≡ k.view store j)
      → All (λ other. same (wrap_id kp.0) (wrap_id other.0) ≡ false) kps
      → All (IsHeld store) kps
      → All (IsHeld store') kps
  All-IsHeld kp [] store store' kept apart held = tt
  All-IsHeld kp (other ∷ kps) store store' kept apart held =
      let (wrapped, seen, is_wrapped) = held.0 in
      (
        (wrapped, kept (wrap_id other.0) apart.0 ∙ seen, is_wrapped),
        All-IsHeld kp kps store store' kept apart.1 held.1,
      )

  apart_sym :
      (kp : Bytes × Bytes) (kps : List (Bytes × Bytes))
      → All (λ other. same (wrap_id kp.0) (wrap_id other.0) ≡ false) kps
      → All (λ other. same (wrap_id other.0) (wrap_id kp.0) ≡ false) kps
  apart_sym kp [] h = tt
  apart_sym kp (other ∷ kps) h =
      (same_sym (wrap_id kp.0) (wrap_id other.0) h.0, apart_sym kp kps h.1)

  rewrap_loop-Renewed :
      (patience : ℕ) (kps : List (Bytes × Bytes)) (w : World e p b h)
      → Available hl old new
      → Distinct kps
      → All (λ kp. IsToken (wrap_id kp.0)) kps
      → All (IsHeld w.store) kps
      → (w' : World e p b h) × (rewrap_loop e p b h (suc patience) old new (map (λ kp. kp.0) kps) w
          ≡ ok (true, w'))
        × Renewed kps w w'
  unfolding rewrap_loop
  rewrap_loop-Renewed patience [] w a d t held = (w, refl, (tt, λ j h. refl))
  rewrap_loop-Renewed patience (kp ∷ kps) w a d t held =
      let (w1, one, renewed, kept) = rewrap_one-Renewed patience kp w a t.0 held.0 in
      let held1 = All-IsHeld kp kps w.store w1.store kept d.0 held.1 in
      let (w2, rest, (renewed2, kept2)) = rewrap_loop-Renewed patience kps w1 a d.1 t.1 held1 in
      let (extra, wrapped, seen, is_wrapped) = renewed in
      (
        w2,
        rw (rewrap_loop, one, ◌>>=◌) rest,
        (
          (
            (extra, wrapped, kept2 (wrap_id kp.0) (apart_sym kp kps d.0) ∙ seen, is_wrapped),
            renewed2,
          ),
          λ j apart. kept2 j apart.1 ∙ kept j apart.0,
        ),
      )

module _ (e : Evp) {p : Peer} {b : Base64} (k : KeyStore p b) {h : Hsm} (hl : HsmLaws h) where
  -- The handle that update_master_key gets from generate_new_k_master, whatever that returns.
  abbrev pub new_handle : World e p b h → ℕ
  new_handle w = (generate_new_k_master h w.session).1

  -- When every id is a word and has a key wrapped under the old handle, no two ids the same, and
  -- the module unwraps under the old and wraps under the new handle, update_master_key returns 0;
  -- every key is then in the store under the new handle, as the front of what is wrapped there,
  -- and nothing else in the store is changed.
  pub update_master_key-Renewed :
      (patience old : ℕ) (kps : List (Bytes × Bytes)) (w : World e p b h)
      → Available hl old (new_handle w)
      → Distinct e k hl old (new_handle w) kps
      → All (λ kp. IsToken (wrap_id kp.0)) kps
      → All (IsHeld e k hl old (new_handle w) w.store) kps
      → (w' : World e p b h) × (update_master_key e p b h
            (suc patience)
            (map (λ kp. kp.0) kps)
            old
            w
          ≡ ok ((new_handle w, true), w'))
        × Renewed e k hl old (new_handle w) kps w w'
  unfolding update_master_key
  update_master_key-Renewed patience old kps w a d t held =
      let begun : World e p b h = record {
        store = w.store;
        session = (generate_new_k_master h w.session).2;
      } in
      let (w1, ran, renewed) =
        rewrap_loop-Renewed e k hl old (new_handle w) patience kps begun a d t held in
      (
        record { store = w1.store; session = delete_old_k_master h old w1.session },
        rw (update_master_key, ran) refl,
        renewed,
      )
