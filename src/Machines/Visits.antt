-- ===== src/Machines/Visits.antt =====
-- What visits do to the ciphertexts of a fleet of servers.
use quicke_r.Prelude.{
  ℕ, ◌+◌, ◌*◌, ◌-◌, ◌^◌, ◌≤◌, ◌<◌, ◌≡◌, ◌≢◌, refl, true, false, [], ◌∷◌, Bytes, length, same,
  same_refl, arith,
}
use quicke_r.Memory.{ok, ◌>>=◌}
use quicke_r.Crypto.Evp.{Evp, EvpLaws}
use quicke_r.Nested.Layout.{layer_size}
use quicke_r.Server.Redis.{Redis}
use quicke_r.Server.Update.{Base64}
use quicke_r.Server.Update.Recode.{IsFaithful}
use quicke_r.Server.Commands.Reply.{IsText}
use quicke_r.Hsm.{Hsm, HsmLaws}
use quicke_r.Actions.Loops.Answers.{Answers}
use quicke_r.Wire.Tokens.{IsToken}
use quicke_r.Wire.Stores.{HasRoom}
use quicke_r.Wire.Values.{Speaks}
use quicke_r.Wire.Replaced.{Stays}
use quicke_r.Wire.Rekeyed.{IsGood}
use quicke_r.Wire.Calls.{Call, Parties, Living, calls_room, run_calls-Living}
use quicke_r.Machines.{Fleet, Visit, KeyList, entry_at, put_site, visit}
use quicke_r.Machines.Share.{hits}

-- A ciphertext of the fleet: its name, its text, the address of its server, and its master key.
pub record Item : Type 0 where
  pub id : Bytes
  pub t : Bytes
  pub address : Bytes
  pub handle : ℕ

-- The draws of the update are good, and the buffers of both downloads have the size asked for.
pub record IsVisit (v : Visit) : Type 0 where
  pub before_sized : (k : ℕ) → length (v.before.buffers k) ≡ k
  pub good : IsGood v.draws
  pub after_sized : (k : ℕ) → length (v.after.buffers k) ≡ k

-- The list of keys says where each item is, the names are tokens and differ, the texts are texts.
pub record IsListed (items : ℕ → Item) (keys : KeyList) : Type 0 where
  pub listed : (k : ℕ) → k < length keys → entry_at keys k ≡ ok ((items k).id, (items k).address)
  pub tokens : (k : ℕ) → k < length keys → IsToken (items k).id
  pub texts : (k : ℕ) → k < length keys → IsText (items k).t
  pub distinct :
      (j k : ℕ) → j < length keys → k < length keys → j ≢ k → same (items j).id (items k).id ≡ false

module _ (r : Redis) {e : Evp} (l : EvpLaws e) {b : Base64} {f : IsFaithful b} (sp : Speaks f)
    {h : Hsm} (hl : HsmLaws h) (patience : ℕ) (a : Answers hl patience) (items : ℕ → Item)
    (keys : KeyList) where
  -- The server of an item, and the machine.
  abbrev pub parties : ℕ → Fleet r h → Parties r e b h
  parties k w = (record { site = w.sites (items k).address; client = w.client }, w.session)

  -- Each item's server keeps its text, under so many layers, with room for so many updates, and the
  -- counter; the sizes fit an int, and the buffers have room for the requests and replies.
  pub record Standing (n left count : ℕ → ℕ) (w : Fleet r h) : Type 0 where
    pub living :
        (k : ℕ)
        → k < length keys
        → Living r l sp hl patience a
            (items k).id
            (items k).t
            (items k).handle
            (n k)
            (left k * layer_size)
            (count k)
            (parties k w)
    pub fits :
        (k : ℕ) → k < length keys → 33 + length (items k).t + layer_size * (n k + left k) < 2 ^ 31
    pub rooms :
        (k : ℕ)
        → k < length keys
        → HasRoom r (parties k w).0 (
            calls_room r l sp hl patience a
              (items k).id
              (items k).t
              (items k).handle
              (33 + length (items k).t + layer_size * n k + left k * layer_size))

  abbrev pub raised : ℕ → (ℕ → ℕ) → ℕ → ℕ
  raised i n k = n k + hits i k

  abbrev pub lowered : ℕ → (ℕ → ℕ) → ℕ → ℕ
  lowered i left k = left k - hits i k

  pub visited :
      (v : Visit) (i : ℕ) (n left count : ℕ → ℕ) (w : Fleet r h)
      → i < length keys
      → IsListed items keys
      → IsVisit v
      → Standing n left count w
      → 1 ≤ left i
      → count i + 1 < 1000000000
      → (x : Parties r e b h) × (visit r e b h patience v (items i).id (items i).address w
          ≡ ok (
            true,
            record {
              sites = put_site r e b h (items i).address x.0.site w.sites;
              client = x.0.client;
              session = x.1;
            },
          ))
        × Living r l sp hl patience a
            (items i).id
            (items i).t
            (items i).handle
            (n i + 1)
            ((left i - 1) * layer_size)
            (count i + 1)
            x
        × Stays r (items i).id (parties i w).0 x.0
  unfolding visit
  visited v i n left count w below listed good s some_left small =
      let o = items i in
      let budget : left i * layer_size ≡ (left i - 1) * layer_size + 1 * layer_size =
        omega (arith, some_left) in
      let size : 33 + length o.t + layer_size * n i + ((left i - 1) * layer_size + 1 * layer_size)
          ≡ 33 + length o.t + layer_size * n i + left i * layer_size =
        omega (arith, some_left) in
      let (x, ran, living, stays) =
        run_calls-Living r l sp hl patience a o.id o.t o.handle
          (Call.download v.before
            ∷ Call.update v.network v.draws v.stack
            ∷ Call.download v.after
            ∷ [])
          (n i) ((left i - 1) * layer_size) (count i) (parties i w)
          (rw budget at (s.living i below)) (good.before_sized, (good.good, (good.after_sized, tt)))
          (listed.tokens i below) (listed.texts i below) small
          (omega (arith, s.fits i below, some_left)) (rw size (s.rooms i below)) in
      (x, rw (visit, ran, ◌>>=◌, same_refl o.t) refl, living, stays)
