-- ===== src/Actions/Rotate.antt =====
-- update_master_key of src/actions/actions.c: every key is unwrapped under the old master key and
-- wrapped under a new one.
pub mod Law
use quicke_r.Prelude.{
  ℕ, zero, suc, ◌==◌, Bool, true, false, Option, none, some, List, [], ◌∷◌, Bytes, length,
  if◌then◌else◌,
}
use quicke_r.Memory.{Run, ok, abort, ◌>>=◌}
use quicke_r.Crypto.Evp.{Evp}
use quicke_r.Server.Update.{Base64}
use quicke_r.Client.{Peer, set, get}
use quicke_r.Hsm.{Hsm}
use quicke_r.Actions.{World, wrap_id}
use quicke_r.Actions.Loops.{generate_new_k_master}

module _ (h : Hsm) where
  open h use {Session, encrypt, decrypt, destroy, reset}

  -- `while(1)` around hsm_aes_decrypt, here without a new connection on the value 7.
  unfoldable pub unwrap_again : ℕ → ℕ → Bytes → Session → Run (Bytes × Session)
  unwrap_again zero handle wrapped s = abort
  unwrap_again (suc patience) handle wrapped s = do
    r ← decrypt handle wrapped s
    elim (r.0 == 0) [ true ↦ ok (r.1, r.2) | false ↦ unwrap_again patience handle wrapped r.2 ]

  -- `while(1)` around hsm_aes_encrypt, here with a new connection on the value 7.
  unfoldable pub wrap_again : ℕ → ℕ → Bytes → Session → Run (Bytes × Session)
  wrap_again zero handle plain s = abort
  wrap_again (suc patience) handle plain s = do
    r ← encrypt handle plain s
    elim (r.0 == 7) [
      | true ↦ wrap_again patience handle plain (reset r.2)
      | false ↦ elim (r.0 == 0) [
        | true ↦ ok (r.1, r.2)
        | false ↦ wrap_again patience handle plain r.2
      ]
    ]

  unfoldable pub delete_old_k_master : ℕ → Session → Session
  delete_old_k_master old_key s = destroy old_key s

-- A length that is positive.
unfoldable pub downloaded : Option Bytes → Option Bytes
downloaded none = none
downloaded (some v) = if length v == 0 then none else some v

module _ (e : Evp) (p : Peer) (b : Base64) (h : Hsm) where
  -- The body of the loop, on one key; `false` is the return of EXIT_FAILURE.
  unfoldable pub rewrap_one : ℕ → ℕ → ℕ → Bytes → World e p b h → Run (Bool × World e p b h)
  rewrap_one patience old_handle new_handle key_id w = do
    r ← get p b (wrap_id key_id) w.store
    elim (downloaded r.0) [
      | none ↦ ok (false, record { store = r.1; session = w.session })
      | some wrap ↦ do
        key ← unwrap_again h patience old_handle wrap w.session
        wrapped ← wrap_again h patience new_handle key.0 key.1
        store ← set p b (wrap_id key_id) wrapped.0 r.1
        ok (true, record { store = store; session = wrapped.1 })
    ]

  -- The loop over the keys. The first that is missing ends it, with the keys before it rewrapped.
  unfoldable pub rewrap_loop : ℕ → ℕ → ℕ → List Bytes → World e p b h → Run (Bool × World e p b h)
  rewrap_loop patience old_handle new_handle [] w = ok (true, w)
  rewrap_loop patience old_handle new_handle (key_id ∷ rest) w = do
    r ← rewrap_one patience old_handle new_handle key_id w
    elim r.0 [ true ↦ rewrap_loop patience old_handle new_handle rest r.1 | false ↦ ok r ]

  -- The result of generate_new_k_master is not looked at. The new handle, and whether 0 is returned:
  -- the old key is destroyed only then.
  unfoldable pub update_master_key :
      ℕ → List Bytes → ℕ → World e p b h → Run ((ℕ × Bool) × World e p b h)
  update_master_key patience database_keys old_key_handle w = do
    let g = generate_new_k_master h w.session
    r ←
        rewrap_loop patience old_key_handle g.1 database_keys
          (record { store = w.store; session = g.2 })
    ok (
      (g.1, r.0),
      (if r.0
          then record {
            store = r.1.store;
            session = delete_old_k_master h old_key_handle r.1.session;
          }
          else r.1),
    )
