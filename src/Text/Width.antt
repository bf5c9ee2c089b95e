-- ===== src/Text/Width.antt =====
-- How many digits sprintf("%d", n) writes.
use native.Mathlib.Nat.{pow-succ'}
use quicke_r.Prelude.{
  ℕ, zero, suc, ◌+◌, ◌/◌, ◌%◌, ◌^◌, ◌≤◌, ◌<◌, ◌≡◌, [], ◌∷◌, length, length-append, ltb, true, false,
  lt→ltb, le→ltb, Bool-cases, inl, inr, arith,
}
use quicke_r.Text.Decimal.{decimal_loop, decimal}

loop_short : (fuel n k : ℕ) → n < 10 ^ suc k → length (decimal_loop fuel n) ≤ suc k
unfolding decimal_loop
loop_short zero n k h = omega arith
loop_short (suc fuel) n zero h =
    let small : ltb n 10 ≡ true = lt→ltb n 10 (omega arith) in rw small (omega arith)
loop_short (suc fuel) n (suc k) h = elim (Bool-cases (ltb n 10)) [
  | inl small ↦ rw small (omega arith)
  | inr large ↦
      let below : n / 10 < 10 ^ suc k = omega (arith, pow-succ' 10 (suc k)) in
      rw large (
        omega (
          arith,
          loop_short fuel (n / 10) k below,
          length-append (decimal_loop fuel (n / 10)) ((n % 10 + 48) ∷ []),
        ))
]

pow_pos : (k : ℕ) → 1 ≤ 10 ^ k
pow_pos zero = omega arith
pow_pos (suc k) = omega (arith, pow_pos k, pow-succ' 10 k)

loop_long : (fuel n k : ℕ) → n < fuel → 10 ^ k ≤ n → suc k ≤ length (decimal_loop fuel n)
unfolding decimal_loop
loop_long zero n k lt h = absurd (omega arith)
loop_long (suc fuel) n zero lt h = elim (Bool-cases (ltb n 10)) [
  | inl small ↦ rw small (omega arith)
  | inr large ↦
      rw large (omega (arith, length-append (decimal_loop fuel (n / 10)) ((n % 10 + 48) ∷ [])))
]
loop_long (suc fuel) n (suc k) lt h =
    let some_units : 1 ≤ 10 ^ k = pow_pos k in
    let large : ltb n 10 ≡ false = le→ltb n 10 (omega (arith, pow-succ' 10 k)) in
    let above : 10 ^ k ≤ n / 10 = omega (arith, pow-succ' 10 k) in
    rw large (
      omega (
        arith,
        loop_long fuel (n / 10) k (omega (arith, pow-succ' 10 k)) above,
        length-append (decimal_loop fuel (n / 10)) ((n % 10 + 48) ∷ []),
      ))

-- A number below 10 ^ k has at most k digits, for k of 1 or more.
pub length-decimal : (n k : ℕ) → n < 10 ^ suc k → length (decimal n) ≤ suc k
unfolding decimal
length-decimal n k h = loop_short (suc n) n k h

-- And one of 10 ^ k or more has more than k.
pub length-decimal_long : (n k : ℕ) → 10 ^ k ≤ n → suc k ≤ length (decimal n)
unfolding decimal
length-decimal_long n k h = loop_long (suc n) n k (omega arith) h

pub length-decimal_some : (n : ℕ) → 1 ≤ length (decimal n)
unfolding decimal decimal_loop
length-decimal_some n = elim (Bool-cases (ltb n 10)) [
  | inl small ↦ rw small (omega arith)
  | inr large ↦
      rw large (omega (arith, length-append (decimal_loop n (n / 10)) ((n % 10 + 48) ∷ [])))
]
