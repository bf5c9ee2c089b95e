-- ===== src/Machines/Share.antt =====
-- The keys that a machine of a round visits.
use quicke_r.Prelude.{
  ℕ, All, subst, zero, suc, ◌+◌, ◌*◌, ◌/◌, ◌%◌, ◌≤◌, ◌<◌, ◌≡◌, ◌≢◌, refl, sym, ap, ◌∙◌, true, false,
  List, [], ◌∷◌, ◌++◌, ltb, lt→ltb, ltb→lt, ◌==◌, Bool-cases, inl, inr, if◌then◌else◌, arith,
}
use native.Mathlib.Nat.{
  suc-mul, div-add-mod, add-mod_right, mod-lt, mod-eq_of_lt, mul_comm, div-le_self,
}

-- The indices from `index` on, in steps of `offset`, below `total`, at most `turns` of them.
abbrev pub share : ℕ → ℕ → ℕ → ℕ → List ℕ
share zero index offset total = []
share (suc turns) index offset total = elim (ltb index total) [
  | false ↦ []
  | true ↦ index ∷ share turns (index + offset) offset total
]

-- How often an index is in a list.
abbrev pub hits : ℕ → ℕ → ℕ
hits j k = if j == k then 1 else 0

abbrev pub times : ℕ → List ℕ → ℕ
times k [] = 0
times k (j ∷ js) = hits j k + times k js

times-append : (k : ℕ) (js is : List ℕ) → times k (js ++ is) ≡ times k js + times k is
times-append k [] is = omega arith
times-append k (j ∷ js) is = omega (arith, times-append k js is)

-- The shares of the machines below `count`, one after the other.
abbrev shares : ℕ → ℕ → ℕ → List ℕ
shares zero offset total = []
shares (suc count) offset total = shares count offset total ++ share (suc total) count offset total

pub hits_same : (k : ℕ) → hits k k ≡ 1
hits_same k = ground arith

pub hits_other : (j k : ℕ) → j ≢ k → hits j k ≡ 0
hits_other j k h = ground (arith, h)

pub share_more :
    (turns index offset total : ℕ)
    → ltb index total ≡ true
    → share (suc turns) index offset total ≡ index ∷ share turns (index + offset) offset total
share_more turns index offset total h = rw (share, h) refl

pub share_none :
    (turns index offset total : ℕ)
    → ltb index total ≡ false
    → share (suc turns) index offset total ≡ []
share_none turns index offset total h = rw (share, h) refl

counted_more :
    (turns index offset total k : ℕ)
    → ltb index total ≡ true
    → times k (share (suc turns) index offset total)
      ≡ hits index k + times k (share turns (index + offset) offset total)
counted_more turns index offset total k h = ap (times k) (share_more turns index offset total h)

-- An index that leaves another rest is not in a share.
share_misses :
    (turns index offset total k : ℕ)
    → index % offset ≢ k % offset
    → times k (share turns index offset total) ≡ 0
share_misses zero index offset total k h = refl
share_misses (suc turns) index offset total k h = elim (Bool-cases (ltb index total)) [
  | inl below ↦
      let rest =
        share_misses turns (index + offset) offset total k
          (λ e. h (sym (add-mod_right index offset) ∙ e)) in
      let other = hits_other index k (λ e. h (ap (λ j. j % offset) e)) in
      counted_more turns index offset total k below ∙ omega (arith, rest, other)
  | inr over ↦ ap (times k) (share_none turns index offset total over)
]

-- An index below the first of a share is not in it.
share_above :
    (turns index offset total k : ℕ) → k < index → times k (share turns index offset total) ≡ 0
share_above zero index offset total k h = refl
share_above (suc turns) index offset total k h = elim (Bool-cases (ltb index total)) [
  | inl below ↦
      let rest = share_above turns (index + offset) offset total k (omega (arith, h)) in
      let other = hits_other index k (λ e. omega (arith, h, e)) in
      counted_more turns index offset total k below ∙ omega (arith, rest, other)
  | inr over ↦ ap (times k) (share_none turns index offset total over)
]

-- An index in so many steps from the first is in it once.
share_step :
    (turns index offset total k q : ℕ)
    → 1 ≤ offset
    → k ≡ index + q * offset
    → k < total
    → q < turns
    → times k (share turns index offset total) ≡ 1
share_step zero index offset total k q some_offset is below enough = absurd (omega arith)
share_step (suc turns) index offset total k zero some_offset is below enough =
    let same : index ≡ k = omega (arith, is) in
    let rest = share_above turns (index + offset) offset total k (omega (arith, is)) in
    counted_more turns index offset total k (lt→ltb index total (omega (arith, is)))
    ∙ omega (arith, rest, ap (λ j. hits j k) same, hits_same k)
share_step (suc turns) index offset total k (suc q) some_offset is below enough =
    let later : k ≡ index + offset + q * offset = omega (arith, is, suc-mul q offset) in
    let rest =
      share_step turns (index + offset) offset total k q some_offset later below (omega arith) in
    let other = hits_other index k (λ e. omega (arith, later, e)) in
    counted_more turns index offset total k (lt→ltb index total (omega (arith, later)))
    ∙ omega (arith, rest, other)

pub own_share :
    (m total k : ℕ) → 1 ≤ m → k < total → times k (share (suc total) (k % m) m total) ≡ 1
own_share m total k some_machine below =
    share_step (suc total) (k % m) m total k (k / m) some_machine
      (sym (div-add-mod k m) ∙ omega (arith, mul_comm m (k / m))) below
      (omega (arith, div-le_self k m))

not_below : (count m total k : ℕ) → count ≤ m → count ≤ k % m → times k (shares count m total) ≡ 0
not_below zero m total k le h = refl
not_below (suc count) m total k le h =
    let rest = not_below count m total k (omega arith) (omega arith) in
    let last : times k (share (suc total) count m total) ≡ 0 =
      share_misses (suc total) count m total k
        (λ e. omega (arith, h, sym (mod-eq_of_lt (below count m le)) ∙ e)) in
    times-append k (shares count m total) (share (suc total) count m total)
    ∙ omega (arith, rest, last)
  where
    below : (j n : ℕ) → suc j ≤ n → j < n
    below j n h = h

-- Each key is in the shares of `m` machines once.
once_below :
    (count m total k : ℕ)
    → 1 ≤ m
    → count ≤ m
    → k % m < count
    → k < total
    → times k (shares count m total) ≡ 1
once_below zero m total k some_machine le h below = absurd (omega arith)
once_below (suc count) m total k some_machine le h below = elim (Bool-cases (k % m == count)) [
  | inl own ↦
      let is : k % m ≡ count = ground (arith, own) in
      let last : times k (share (suc total) count m total) ≡ 1 =
        ap (λ j. times k (share (suc total) j m total)) (sym is)
        ∙ own_share m total k some_machine below in
      let rest = not_below count m total k (omega arith) (omega (arith, is)) in
      times-append k (shares count m total) (share (suc total) count m total)
      ∙ omega (arith, rest, last)
  | inr other ↦
      let ne : k % m ≢ count = ground (arith, other) in
      let small : count % m ≡ count = mod-eq_of_lt (omega (arith, le)) in
      let last : times k (share (suc total) count m total) ≡ 0 =
        share_misses (suc total) count m total k (λ e. ne (sym e ∙ small)) in
      let rest =
        once_below count m total k some_machine (omega arith) (omega (arith, h, ne)) below in
      times-append k (shares count m total) (share (suc total) count m total)
      ∙ omega (arith, rest, last)
]

-- Among any number of machines, at least one, the shares that they visit have each key once.
shares-once : (m total k : ℕ) → 1 ≤ m → k < total → times k (shares m m total) ≡ 1
shares-once m total k some_machine below =
    once_below m m total k some_machine (omega arith) (mod-lt k (omega arith)) below

pub share-below :
    (turns index offset total : ℕ) → All (λ k. k < total) (share turns index offset total)
share-below zero index offset total = tt
share-below (suc turns) index offset total = elim (Bool-cases (ltb index total)) [
  | inl below ↦
      subst (All (λ k. k < total)) (sym (share_more turns index offset total below))
        (ltb→lt index total below, share-below turns (index + offset) offset total)
  | inr over ↦ subst (All (λ k. k < total)) (sym (share_none turns index offset total over)) tt
]

times-shares_le :
    (count m offset total k : ℕ)
    → count ≤ m
    → times k (shares count offset total) ≤ times k (shares m offset total)
times-shares_le count zero offset total k le =
    let none : count ≡ 0 = omega arith in
    subst (λ c. times k (shares c offset total) ≤ 0) (sym none) (omega arith)
times-shares_le count (suc m) offset total k le = elim (Bool-cases (count == suc m)) [
  | inl all ↦
      let is : count ≡ suc m = ground (arith, all) in
      subst (λ c. times k (shares c offset total) ≤ times k (shares (suc m) offset total)) (sym is)
        (omega arith)
  | inr fewer ↦
      let ne : count ≢ suc m = ground (arith, fewer) in
      omega (
        arith,
        times-shares_le count m offset total k (omega (arith, ne)),
        times-append k (shares m offset total) (share (suc total) m offset total),
      )
]
