-- ===== src/Text/Decimal.antt =====
-- sprintf("%d", n) of a number that is not negative, and the number of such digits.
use mathlib.Core.List.{foldl, foldl-append}
use quicke_r.Prelude.{
  ℕ, zero, suc, ◌+◌, ◌-◌, ◌*◌, ◌/◌, ◌%◌, ◌≤◌, ◌<◌, ◌≡◌, refl, sym, ap, ◌∙◌, ◌&&◌, [], ◌∷◌, ◌++◌,
  Bytes, ltb, leb, ltb→lt, All, All-append, if◌then◌else◌, arith, Bool-cases, inl, inr,
}

unfoldable pub decimal_loop : ℕ → ℕ → Bytes
decimal_loop zero n = []
decimal_loop (suc fuel) n =
    let front = decimal_loop fuel (n / 10) in
    if ltb n 10 then (n + 48) ∷ [] else front ++ ((n % 10 + 48) ∷ [])

-- A number has at most as many digits as it has units, and one.
unfoldable pub decimal : ℕ → Bytes
unfolding decimal_loop
decimal n = decimal_loop (suc n) n

-- The digits at the front of the text.
unfoldable pub digits : Bytes → Bytes
digits [] = []
digits (c ∷ s) = if leb 48 c && leb c 57 then c ∷ digits s else []

abbrev push_digit : ℕ → ℕ → ℕ
push_digit n c = n * 10 + (c - 48)

-- The number that the digits at the front make.
unfoldable pub digits_value : Bytes → ℕ
unfolding digits
digits_value s = foldl push_digit 0 (digits s)

abbrev pub IsDigits : Bytes → Type 0
IsDigits = All (λ c. (48 ≤ c) × (c ≤ 57))

digits_all : (s : Bytes) → IsDigits s → digits s ≡ s
unfolding digits
digits_all [] h = refl
digits_all (c ∷ s) h = ground (arith, digits_all s h.1)

decimal_loop-IsDigits : (fuel n : ℕ) → IsDigits (decimal_loop fuel n)
unfolding decimal_loop
decimal_loop-IsDigits zero n = tt
decimal_loop-IsDigits (suc fuel) n = elim (Bool-cases (ltb n 10)) [
  | inl small ↦ rw small (omega (arith, ltb→lt n 10 small))
  | inr large ↦ rw large (
      All-append _ (decimal_loop fuel (n / 10)) ((n % 10 + 48) ∷ [])
        (decimal_loop-IsDigits fuel (n / 10)) (omega arith))
]

value_loop : (fuel n : ℕ) → n < fuel → foldl push_digit 0 (decimal_loop fuel n) ≡ n
unfolding decimal_loop
value_loop zero n h = absurd (omega arith)
value_loop (suc fuel) n h = elim (Bool-cases (ltb n 10)) [
  | inl small ↦ rw small (omega arith)
  | inr large ↦
      rw
        (
          large,
          foldl-append push_digit 0 (decimal_loop fuel (n / 10)) ((n % 10 + 48) ∷ []),
          value_loop fuel (n / 10) (ground arith),
        )
        (omega arith)
]

pub decimal-IsDigits : (n : ℕ) → IsDigits (decimal n)
unfolding decimal
decimal-IsDigits n = decimal_loop-IsDigits (suc n) n

-- Reading back a printed number gives the number.
pub digits_value-decimal : (n : ℕ) → digits_value (decimal n) ≡ n
unfolding digits_value decimal
digits_value-decimal n =
    rw (digits_all (decimal_loop (suc n) n) (decimal_loop-IsDigits (suc n) n))
      (value_loop (suc n) n (omega arith))

digits_front : (s rest : Bytes) → IsDigits s → digits (s ++ (0 ∷ rest)) ≡ s
unfolding digits
digits_front [] rest h = refl
digits_front (c ∷ s) rest h = ground (arith, digits_front s rest h.1)

-- A printed number in a buffer, with its NUL, reads back too.
pub digits_value-decimal_front : (n : ℕ) (rest : Bytes) → digits_value (decimal n ++ (0 ∷ rest)) ≡ n
unfolding digits_value decimal
digits_value-decimal_front n rest =
    rw (digits_front (decimal_loop (suc n) n) rest (decimal_loop-IsDigits (suc n) n))
      (value_loop (suc n) n (omega arith))

-- So different numbers are printed differently.
pub decimal-injective : (n k : ℕ) → decimal n ≡ decimal k → n ≡ k
decimal-injective n k h = sym (digits_value-decimal n) ∙ ap digits_value h ∙ digits_value-decimal k
