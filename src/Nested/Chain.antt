-- ===== src/Nested/Chain.antt =====
-- A life of a ciphertext: one AE_Encrypt, any number of updates within the budget of its pad, and
-- one AE_Decrypt.
pub mod Law
use quicke_r.Prelude.{
  ℕ, zero, suc, ◌+◌, ◌*◌, ◌-◌, ◌^◌, ◌≤◌, ◌<◌, ◌≡◌, refl, some, none, false, true, ◌==◌, ltb, le→ltb,
  lt→ltb, ◌++◌, List, [], ◌∷◌, Option, Bytes, length, replicate, length-replicate, arith,
  length-append, if◌then◌else◌,
}
use quicke_r.Memory.{Run, ok, fault, ◌>>=◌, or_fault, poke, peek}
use quicke_r.Crypto.Evp.{Evp, EvpLaws}
use quicke_r.Nested.Layout.{layer_size, AeKey, CtHatDataEn, DeltaToken}
use quicke_r.Nested.Encrypt.{EncryptDraws, ae_encrypt, fresh}
use quicke_r.Nested.Decrypt.{key_and, ae_decrypt}
use quicke_r.Nested.Update.{RekeyDraws, Reencrypted, ae_rekeygen, ae_reencrypt}
use quicke_r.Nested.Update.Rekey
use quicke_r.Nested.Layers.{Holds}

-- What one update draws: the owner's five, the server's iv, and the owner's next key.
pub record UpdateDraws : Type 0 where
  pub rekey : RekeyDraws
  pub iv : Bytes
  pub next_key : AeKey

-- The sizes that the code asks for, and a history key that is not zero.
pub record IsUpdate (u : UpdateDraws) : Type 0 where
  pub rekey_ok : Rekey.IsDrawn u.rekey
  pub iv_16 : length u.iv ≡ 16
  pub key_16 : length u.next_key.key ≡ 16
  pub history_ne_zero : (key_and u.rekey.history_key == 0) ≡ false

abbrev pub AllUpdates : List UpdateDraws → Type 0
AllUpdates [] = Unit
AllUpdates (u ∷ us) = IsUpdate u × AllUpdates us

-- A key, a header and a ciphertext, as the owner and the server hold them between two updates.
pub record Stored : Type 0 where
  pub key : AeKey
  pub hat : CtHatDataEn
  pub ct : Bytes

module _ (e : Evp) where
  -- One update as the two parties make it: the server encrypts into a buffer of the ciphertext's
  -- size, and asks for the ciphertext's size less the header, as `up_update` does. The header that
  -- it passes for the output is replaced.
  pub update : UpdateDraws → Stored → Run Stored
  update u s = do
    token ← ae_rekeygen e u.rekey s.key u.next_key s.hat
    delta ← or_fault token
    r ← ae_reencrypt e u.iv delta s.ct s.hat (fresh (length s.ct)) (length s.ct - 32)
    ok (record { key = u.next_key; hat = r.hat; ct = r.ciphertext })

  pub updates : List UpdateDraws → Stored → Run Stored
  unfolding update
  updates [] s = ok s
  updates (u ∷ us) s = do s' ← update u s; updates us s'

  -- Encrypt, update, and decrypt into a buffer, as `updatable_download_and_decrypt` does.
  pub life : EncryptDraws → AeKey → Bytes → List UpdateDraws → Bytes → Run Bytes
  unfolding updates
  life d ae_key m us buf = do
    r ← ae_encrypt e d ae_key m (fresh (32 + length m + ae_key.k_t * layer_size)) (length m)
    s ← updates us (record { key = ae_key; hat = r.0; ct = r.1 })
    ae_decrypt e s.key s.hat s.ct buf (length s.ct - 32)
