-- ===== src/Text/Int.antt =====
-- sprintf("%d", n) and atoi on an int, as the natural number below 2 ^ 32 that has its bits.
use quicke_r.Prelude.{
  ℕ, ◌+◌, ◌-◌, ◌%◌, ◌^◌, ◌≤◌, ◌<◌, ◌≡◌, refl, ap, sym, ◌∙◌, ◌&&◌, ◌==◌, [], ◌∷◌, ◌++◌, append-nil,
  Bytes, length, ltb, leb, lt→ltb, if◌then◌else◌, arith,
}
use quicke_r.Text.Decimal.{
  decimal, digits_value, IsDigits, decimal-IsDigits, digits_value-decimal,
  digits_value-decimal_front,
}
use quicke_r.Text.Width.{length-decimal_some}

unfoldable pub print_int : ℕ → Bytes
print_int n =
    let bits = n % 2 ^ 32 in
    if ltb bits (2 ^ 31) then decimal bits else b'-' ∷ decimal (2 ^ 32 - bits)

unfoldable pub skip_space : Bytes → Bytes
skip_space [] = []
skip_space (c ∷ s) =
    let rest = skip_space s in if c == 32 then rest else if leb 9 c && leb c 13 then rest else c ∷ s

unfoldable pub saturate : ℕ → ℕ → ℕ
saturate limit n = if leb n limit then n else limit

-- `(int) strtol(s, NULL, 10)` behind the white space: strtol stops at the bounds of a long.
unfoldable pub strtol : Bytes → ℕ
unfolding saturate
strtol [] = 0
strtol (c ∷ s) =
    if c == b'-'
    then (2 ^ 64 - saturate (2 ^ 63) (digits_value s)) % 2 ^ 32
    else if c == b'+'
    then saturate (2 ^ 63 - 1) (digits_value s) % 2 ^ 32
    else saturate (2 ^ 63 - 1) (digits_value (c ∷ s)) % 2 ^ 32

unfoldable pub atoi : Bytes → ℕ
unfolding skip_space strtol
atoi s = strtol (skip_space s)

-- An int that is made an unsigned long.
unfoldable pub ulong : ℕ → ℕ
ulong n = if ltb n (2 ^ 31) then n else n + (2 ^ 64 - 2 ^ 32)

pub ulong-small : (n : ℕ) → n < 2 ^ 31 → ulong n ≡ n
unfolding ulong
ulong-small n h = rw (lt→ltb n (2 ^ 31) h) refl

pub print_int-decimal : (n : ℕ) → n < 2 ^ 31 → print_int n ≡ decimal n
unfolding print_int
print_int-decimal n h =
    let bits : n % 2 ^ 32 ≡ n = omega (arith, h) in rw (bits, lt→ltb n (2 ^ 31) h) refl

atoi_plain :
    (s rest : Bytes) (n : ℕ)
    → 1 ≤ length s
    → IsDigits s
    → digits_value (s ++ rest) ≡ n
    → n < 2 ^ 31
    → atoi (s ++ rest) ≡ n
unfolding atoi skip_space strtol saturate
atoi_plain [] rest n h d is small = absurd (omega arith)
atoi_plain (c ∷ s) rest n h d is small = ground (arith, d.0, is, small)

-- Reading back a printed int that is not negative gives the int.
pub atoi-decimal : (n : ℕ) → n < 2 ^ 31 → atoi (decimal n) ≡ n
atoi-decimal n h =
    let none_behind = append-nil (decimal n) in
    ap atoi (sym none_behind)
    ∙ atoi_plain (decimal n) [] n (length-decimal_some n) (decimal-IsDigits n)
        (ap digits_value none_behind ∙ digits_value-decimal n) h

-- So does one in a buffer, with its NUL.
pub atoi-decimal_front : (n : ℕ) (rest : Bytes) → n < 2 ^ 31 → atoi (decimal n ++ (0 ∷ rest)) ≡ n
atoi-decimal_front n rest h =
    atoi_plain (decimal n) (0 ∷ rest) n (length-decimal_some n) (decimal-IsDigits n)
      (digits_value-decimal_front n rest) h
