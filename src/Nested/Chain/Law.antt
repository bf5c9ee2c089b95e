-- ===== src/Nested/Chain/Law.antt =====
-- The message survives every update within the budget.
use quicke_r.Prelude.{
  ℕ, suc, ◌+◌, ◌*◌, ◌-◌, ◌^◌, ◌≤◌, ◌<◌, ◌≡◌, refl, ap, List, [], ◌∷◌, ◌++◌, Bytes, length,
  length-append, length-replicate, append-nil, arith,
}
use quicke_r.Memory.{ok}
use quicke_r.Crypto.Evp.{Evp, EvpLaws}
use quicke_r.Crypto.Ctr.Laws.{pad, length-pad}
use quicke_r.Nested.Layout.{layer_size, AeKey, CtHatDataEn}
use quicke_r.Nested.Encrypt.{EncryptDraws, fresh}
use quicke_r.Nested.Encrypt.Law as EncryptLaw
use quicke_r.Nested.Encrypt.Law.{ae_encrypt-Holds}
use quicke_r.Nested.Decrypt.Law.{ae_decrypt-Holds}
use quicke_r.Nested.Update.Law.{Updated, update-Holds}
use quicke_r.Nested.Layers.{Holds, length-Layered}
use quicke_r.Nested.Chain.{UpdateDraws, IsUpdate, AllUpdates, Stored, update, updates, life}

module _ {e : Evp} (l : EvpLaws e) where
  pub length-Holds :
      {key : Bytes} {hat : CtHatDataEn} {ct m : Bytes} {n room : ℕ}
      → Holds l key hat ct m n room
      → length ct ≡ 32 + length m + layer_size * n + room
  length-Holds {ct = ct} {room = room} h = omega (
    arith,
    ap length h.ct_is,
    length-append h.payload (pad e l h.meta.prg_seed room),
    length-pad e l h.meta.prg_seed room,
    length-Layered l h.layers,
  )

  -- A store whose header and ciphertext hold a message.
  abbrev pub IsStored : Stored → Bytes → ℕ → ℕ → Type 0
  IsStored s m n room = Holds l s.key.key s.hat s.ct m n room

  -- `update` makes the two calls that `Updated` speaks of.
  update_of :
      (u : UpdateDraws) (s : Stored) {m : Bytes} {n room : ℕ}
      → (made : Updated l u.rekey u.iv s.key u.next_key s.hat s.hat s.ct
          (fresh (length s.ct))
          m
          n
          room)
      → length s.ct - 32 ≡ length m + layer_size * n + 96 + room
      → update e u s ≡ ok (record { key = u.next_key; hat = made.new_hat; ct = made.new_ct })
  unfolding update
  update_of u s made asked = rw (made.rekeyed, asked, made.reencrypted)

  update-IsStored :
      (u : UpdateDraws) (s : Stored) (m : Bytes) (n room : ℕ)
      → IsUpdate u
      → IsStored s m n (room + 96)
      → length m + layer_size * n + 96 < 2 ^ 31
      → (s' : Stored) × (update e u s ≡ ok s') × IsStored s' m (suc n) room
  update-IsStored u s m n room hu h fits =
      let size = length-Holds h in
      let made =
        update-Holds l u.rekey u.iv s.key u.next_key s.hat s.hat s.ct (fresh (length s.ct)) m n room
          hu.rekey_ok hu.iv_16 hu.key_16 hu.history_ne_zero h fits
          (omega (arith, length-replicate {A = ℕ} (length s.ct) 0)) in
      (
        record { key = u.next_key; hat = made.new_hat; ct = made.new_ct },
        update_of u s made (omega arith),
        made.holds,
      )

  updates-IsStored :
      (us : List UpdateDraws) (s : Stored) (m : Bytes) (n spare : ℕ)
      → AllUpdates us
      → IsStored s m n (spare + layer_size * length us)
      → length m + layer_size * (n + length us) < 2 ^ 31
      → (s' : Stored) × (updates e us s ≡ ok s') × IsStored s' m (n + length us) spare
  unfolding updates
  updates-IsStored [] s m n spare hu h fits =
      let same_n : n + 0 ≡ n = omega arith in
      let same_room : spare + layer_size * 0 ≡ spare = omega arith in
      (s, refl, rw same_n (rw same_room at h))
  updates-IsStored (u ∷ us) s m n spare hu h fits =
      let split : spare + layer_size * suc (length us) ≡ (spare + layer_size * length us) + 96 =
        omega arith in
      let (s1, did, h1) =
        update-IsStored u s m n (spare + layer_size * length us) hu.0 (rw split at h)
          (omega arith) in
      let (s2, rest, h2) = updates-IsStored us s1 m (suc n) spare hu.1 h1 (omega arith) in
      let count : suc n + length us ≡ n + suc (length us) = omega arith in
      (s2, rw did rest, rw count at h2)

  -- A message encrypted under a key that asks for `k_t` updates, updated any number of times up to
  -- `k_t`, and decrypted into a buffer with room for it, comes back: every call returns, the
  -- message stands at the front of the buffer, and what stands behind it is untouched. Every draw
  -- has the size asked for, no history key is zero, and the final ciphertext's length fits an int.
  pub life-returns-message :
      (d : EncryptDraws) (ae_key : AeKey) (m m0 rest : Bytes) (us : List UpdateDraws)
      → EncryptLaw.IsDrawn d
      → length ae_key.key ≡ 16
      → AllUpdates us
      → length us ≤ ae_key.k_t
      → length m + layer_size * ae_key.k_t < 2 ^ 31
      → length m0 ≡ length m
      → life e d ae_key m us (m0 ++ rest) ≡ ok (m ++ rest)
  unfolding life
  life-returns-message d ae_key m m0 rest us hd hk hu budget fits same_m =
      let total = 32 + length m + ae_key.k_t * layer_size in
      let (hat, ct, encrypted, h) =
        ae_encrypt-Holds l d ae_key m [] (fresh total) hd hk (omega arith)
          (length-replicate {A = ℕ} total 0) in
      let spare : ℕ = layer_size * (ae_key.k_t - length us) in
      let room : ae_key.k_t * layer_size ≡ spare + layer_size * length us = omega arith in
      let start : Stored = record { key = ae_key; hat = hat; ct = ct } in
      let (s, updated, h') = updates-IsStored us start m 0 spare hu (rw room at h) (omega arith) in
      let asked : length s.ct - 32 ≡ length m + layer_size * (0 + length us) + spare =
        omega (arith, length-Holds h') in
      rw (
        rw (append-nil m) at encrypted,
        updated,
        asked,
        ae_decrypt-Holds l s.key s.hat s.ct m m0 rest (0 + length us) spare h' same_m,
      )
