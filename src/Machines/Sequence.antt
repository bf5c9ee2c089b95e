-- ===== src/Machines/Sequence.antt =====
-- Visits in any order, by however many machines.
use mathlib.Core.Path.{fun_ext}
use quicke_r.Prelude.{
  ℕ, ◌+◌, ◌*◌, ◌-◌, ◌≤◌, ◌<◌, ◌≡◌, ◌≢◌, ◌==◌, refl, sym, subst, true, List, [], ◌∷◌, length,
  replicate, All, Bool-cases, inl, inr, arith,
}
use quicke_r.Memory.{ok, ◌>>=◌}
use quicke_r.Crypto.Evp.{Evp, EvpLaws}
use quicke_r.Nested.Layout.{layer_size}
use quicke_r.Server.Redis.{Redis}
use quicke_r.Server.Update.{Base64}
use quicke_r.Server.Update.Recode.{IsFaithful}
use quicke_r.Hsm.{Hsm, HsmLaws}
use quicke_r.Actions.Loops.Answers.{Answers}
use quicke_r.Wire.Values.{Speaks}
use quicke_r.Wire.Replaced.{Stays}
use quicke_r.Wire.Calls.{Parties, Living}
use quicke_r.Machines.{Fleet, Visit, KeyList, visit_at}
use quicke_r.Machines.Share.{hits, times, hits_same, hits_other}
use quicke_r.Machines.Loop.{visit_all}
use quicke_r.Machines.Visits.{Item, IsVisit, IsListed, parties, visited}
use quicke_r.Machines.Standing.{Stands, visited_fleet, put_size, other_lives, own_lives}

module _ (r : Redis) {e : Evp} (l : EvpLaws e) {b : Base64} {f : IsFaithful b} (sp : Speaks f)
    {h : Hsm} (hl : HsmLaws h) (patience : ℕ) (a : Answers hl patience) (items : ℕ → Item)
    (keys : KeyList) (listed : IsListed items keys) where
  living_after :
      (i k : ℕ) (n left count : ℕ → ℕ) (w : Fleet r h) (x : Parties r e b h)
      → i < length keys
      → k < length keys
      → Stands r l sp hl patience a items keys n left count w
      → Stays r (items i).id (parties r l sp hl patience a items keys i w).0 x.0
      → Living r l sp hl patience a
          (items i).id
          (items i).t
          (items i).handle
          (n i + 1)
          ((left i - 1) * layer_size)
          (count i + 1)
          x
      → Living r l sp hl patience a
          (items k).id
          (items k).t
          (items k).handle
          (n k + hits i k)
          ((left k - hits i k) * layer_size)
          (count k + hits i k)
          (parties r l sp hl patience a items keys k
            (visited_fleet r l sp hl patience a items keys i x w))
  living_after i k n left count w x below_i below_k s stays living = elim (Bool-cases (i == k)) [
    | inl own ↦ at_own (ground (arith, own))
    | inr other ↦ at_other (ground (arith, other))
  ]
    where
      lives : ℕ → ℕ → Type 0
      lives j d =
          Living r l sp hl patience a (items j).id (items j).t (items j).handle (n j + d)
            ((left j - d) * layer_size) (count j + d)
            (parties r l sp hl patience a items keys j
              (visited_fleet r l sp hl patience a items keys i x w))

      at_own : i ≡ k → lives k (hits i k)
      at_own is =
          subst (λ j. lives j (hits i j)) is
            (subst (lives i) (sym (hits_same i)) (
              own_lives r l sp hl patience a items keys i (n i + 1) ((left i - 1) * layer_size)
                (count i + 1) w x living))

      at_other : i ≢ k → lives k (hits i k)
      at_other ne =
          let same_n : n k + 0 ≡ n k = omega arith in
          let same_left : left k - 0 ≡ left k = omega arith in
          let same_count : count k + 0 ≡ count k = omega arith in
          subst (lives k) (sym (hits_other i k ne)) (
            rw (same_n, same_left, same_count)
              (other_lives r l sp hl patience a items keys i k (n k) (left k * layer_size) (count k)
                w x (listed.distinct i k below_i below_k ne) stays (s.living k below_k)))

  -- One visit.
  Stands-after :
      (v : Visit) (i : ℕ) (n left count : ℕ → ℕ) (w : Fleet r h) (x : Parties r e b h)
      → i < length keys
      → 1 ≤ left i
      → Stands r l sp hl patience a items keys n left count w
      → Stays r (items i).id (parties r l sp hl patience a items keys i w).0 x.0
      → Living r l sp hl patience a
          (items i).id
          (items i).t
          (items i).handle
          (n i + 1)
          ((left i - 1) * layer_size)
          (count i + 1)
          x
      → Stands r l sp hl patience a items keys
          (λ k. n k + hits i k)
          (λ k. left k - hits i k)
          (λ k. count k + hits i k)
          (visited_fleet r l sp hl patience a items keys i x w)
  Stands-after v i n left count w x below_i some_left s stays living = record {
    living = λ k below_k. living_after i k n left count w x below_i below_k s stays living;
    fits = λ k below_k. omega (arith, s.fits k below_k, enough k);
    rooms = λ k below_k.
        let same_size : 33
              + length (items k).t
              + layer_size * (n k + hits i k)
              + (left k - hits i k) * layer_size
            ≡ 33 + length (items k).t + layer_size * n k + left k * layer_size =
          omega (arith, enough k) in
        rw same_size (record {
          site_room = omega (
            arith,
            (s.rooms k below_k).site_room,
            put_size r l sp hl patience a items keys i k w x stays,
          );
          client_room = omega (arith, (s.rooms k below_k).client_room, stays.client_size);
        });
  }
    where
      enough : (k : ℕ) → hits i k ≤ left k
      enough k = elim (Bool-cases (i == k)) [
        | inl own ↦
            let is : i ≡ k = ground (arith, own) in
            subst (λ j. hits i j ≤ left j) is (omega (arith, hits_same i, some_left))
        | inr other ↦ let ne : i ≢ k = ground (arith, other) in omega (arith, hits_other i k ne)
      ]

  visit_at-Stands :
      (visits : ℕ → Visit) (i : ℕ) (n left count : ℕ → ℕ) (w : Fleet r h)
      → i < length keys
      → IsVisit (visits i)
      → Stands r l sp hl patience a items keys n left count w
      → 1 ≤ left i
      → count i + 1 < 1000000000
      → (w' : Fleet r h) × (visit_at r e b h patience visits keys i w ≡ ok (true, w'))
        × Stands r l sp hl patience a items keys
            (λ k. n k + hits i k)
            (λ k. left k - hits i k)
            (λ k. count k + hits i k)
            w'
  unfolding visit_at
  visit_at-Stands visits i n left count w below good s some_left small =
      let (x, ran, living, stays) =
        visited r l sp hl patience a items keys (visits i) i n left count w below listed good s
          some_left small in
      (
        visited_fleet r l sp hl patience a items keys i x w,
        rw (visit_at, listed.listed i below, ◌>>=◌) ran,
        Stands-after (visits i) i n left count w x below some_left s stays living,
      )

  Stands-same :
      (n left count n' left' count' : ℕ → ℕ) (w : Fleet r h)
      → ((k : ℕ) → n k ≡ n' k)
      → ((k : ℕ) → left k ≡ left' k)
      → ((k : ℕ) → count k ≡ count' k)
      → Stands r l sp hl patience a items keys n left count w
      → Stands r l sp hl patience a items keys n' left' count' w
  Stands-same n left count n' left' count' w en el ec s =
      subst (λ m. Stands r l sp hl patience a items keys m left' count' w) (fun_ext en)
        (subst (λ m. Stands r l sp hl patience a items keys n m count' w) (fun_ext el)
          (subst (λ m. Stands r l sp hl patience a items keys n left m w) (fun_ext ec) s))

  -- Visits of the items of a list, in its order, as often as each occurs in it: every call returns
  -- and every comparison finds the text that was there, and each item then has a layer and a step of
  -- its counter more for each of its visits, and its text. The other items stay. There is room for
  -- the updates, and the counters stay below 10 ^ 9.
  pub visit_all-Stands :
      (visits : ℕ → Visit) (ks : List ℕ) (n left count : ℕ → ℕ) (w : Fleet r h)
      → All (λ k. k < length keys) ks
      → ((k : ℕ) → IsVisit (visits k))
      → Stands r l sp hl patience a items keys n left count w
      → ((k : ℕ) → k < length keys → times k ks ≤ left k)
      → ((k : ℕ) → k < length keys → count k + times k ks < 1000000000)
      → (w' : Fleet r h) × (visit_all r e b h patience visits keys ks w
          ≡ ok (replicate (length ks) true, w'))
        × Stands r l sp hl patience a items keys
            (λ k. n k + times k ks)
            (λ k. left k - times k ks)
            (λ k. count k + times k ks)
            w'
  visit_all-Stands visits [] n left count w below good s room small = (
    w,
    refl,
    Stands-same n left count _ _ _ w (λ k. omega arith) (λ k. omega arith) (λ k. omega arith) s,
  )
  visit_all-Stands visits (i ∷ ks) n left count w below good s room small =
      let (w1, first, s1) =
        visit_at-Stands visits i n left count w below.0 (good i) s
          (omega (arith, room i below.0, hits_same i))
          (omega (arith, small i below.0, hits_same i)) in
      let (w2, rest, s2) =
        visit_all-Stands visits ks (λ k. n k + hits i k) (λ k. left k - hits i k)
          (λ k. count k + hits i k) w1 below.1 good s1 (λ k in_list. omega (arith, room k in_list))
          (λ k in_list. omega (arith, small k in_list)) in
      (
        w2,
        rw (first, ◌>>=◌, rest) refl,
        Stands-same _ _ _ _ _ _ w2 (λ k. omega arith) (λ k. omega arith) (λ k. omega arith) s2,
      )
