-- ===== src/Text/Hex.antt =====
-- bytes_to_new_hexstring of src/common/common.c.
use quicke_r.Prelude.{
  ℕ, zero, suc, ◌+◌, ◌-◌, ◌*◌, ◌/◌, ◌%◌, ◌<◌, ◌≡◌, refl, ap, ◌∙◌, [], ◌∷◌, ◌++◌, append_assoc,
  Bytes, length, length-append, replicate, length-replicate, All, ltb, if◌then◌else◌, arith,
}
use quicke_r.Memory.{Run, ok, ◌>>=◌, poke}
use quicke_r.Memory.Regions.{poke_at}

-- `values[n]`
unfoldable pub hex_digit : ℕ → ℕ
hex_digit n = if ltb n 10 then n + 48 else n + 55

-- The loop, with `j` and the array.
unfoldable pub hex_loop : Bytes → ℕ → Bytes → Run Bytes
hex_loop [] j hex_array = ok hex_array
hex_loop (b ∷ bytes) j hex_array = do
  high ← poke hex_array j (hex_digit (b / 16 % 16) ∷ [])
  both ← poke high (j + 1) (hex_digit (b % 16) ∷ [])
  hex_loop bytes (j + 2) both

-- The array for bytes that are not NULL, in the size that is allocated.
unfoldable pub bytes_to_new_hexstring : Bytes → Run Bytes
bytes_to_new_hexstring bytes = hex_loop bytes 0 (replicate (length bytes * 2 + 1) 0)

-- The number that a digit stands for, and the bytes of pairs of digits.
abbrev pub digit_value : ℕ → ℕ
digit_value c = if ltb c 58 then c - 48 else c - 55

abbrev pub hex_bytes : Bytes → Bytes
hex_bytes [] = []
hex_bytes (c ∷ []) = []
hex_bytes (c ∷ d ∷ text) = (digit_value c * 16 + digit_value d) ∷ hex_bytes text

digit_value-hex_digit : (n : ℕ) → n < 16 → digit_value (hex_digit n) ≡ n
unfolding hex_digit
digit_value-hex_digit n h = ground arith

abbrev hex_text : Bytes → Bytes
hex_text [] = []
hex_text (b ∷ bytes) = hex_digit (b / 16 % 16) ∷ hex_digit (b % 16) ∷ hex_text bytes

hex_bytes-hex_text : (bytes : Bytes) → All (λ b. b < 256) bytes → hex_bytes (hex_text bytes) ≡ bytes
hex_bytes-hex_text [] h = refl
hex_bytes-hex_text (b ∷ bytes) h =
    let high = digit_value-hex_digit (b / 16 % 16) (omega arith) in
    let low = digit_value-hex_digit (b % 16) (omega arith) in
    let back : digit_value (hex_digit (b / 16 % 16)) * 16 + digit_value (hex_digit (b % 16)) ≡ b =
      omega (arith, high, low, h.0) in
    ap (λ c. c ∷ hex_bytes (hex_text bytes)) back ∙ ap (λ s. b ∷ s) (hex_bytes-hex_text bytes h.1)

length-hex_text : (bytes : Bytes) → length (hex_text bytes) ≡ length bytes * 2
length-hex_text [] = refl
length-hex_text (b ∷ bytes) = omega (arith, length-hex_text bytes)

hex_loop_lem :
    (bytes a z t : Bytes) (j : ℕ)
    → j ≡ length a
    → length z ≡ length bytes * 2
    → hex_loop bytes j (a ++ (z ++ t)) ≡ ok (a ++ (hex_text bytes ++ t))
unfolding hex_loop
hex_loop_lem [] a [] t j hj hz = refl
hex_loop_lem [] a (y ∷ z) t j hj hz = absurd (omega arith)
hex_loop_lem (b ∷ bytes) a [] t j hj hz = absurd (omega arith)
hex_loop_lem (b ∷ bytes) a (y ∷ []) t j hj hz = absurd (omega arith)
hex_loop_lem (b ∷ bytes) a (x ∷ y ∷ z) t j hj hz =
    let hi : ℕ = hex_digit (b / 16 % 16) in
    let lo : ℕ = hex_digit (b % 16) in
    let first : poke (a ++ (x ∷ y ∷ (z ++ t))) j (hi ∷ []) ≡ ok (a ++ (hi ∷ y ∷ (z ++ t))) =
      poke_at a (x ∷ []) (y ∷ (z ++ t)) (hi ∷ []) j hj refl in
    let made =
      poke_at (a ++ (hi ∷ [])) (y ∷ []) (z ++ t) (lo ∷ []) (j + 1)
        (omega (arith, length-append a (hi ∷ []))) refl in
    let second : poke (a ++ (hi ∷ y ∷ (z ++ t))) (j + 1) (lo ∷ [])
        ≡ ok (a ++ (hi ∷ lo ∷ (z ++ t))) =
      simp append_assoc at made in
    let rest =
      hex_loop_lem bytes (a ++ (hi ∷ lo ∷ [])) z t (j + 2)
        (omega (arith, length-append a (hi ∷ lo ∷ []))) (omega arith) in
    let rest' : hex_loop bytes (j + 2) (a ++ (hi ∷ lo ∷ (z ++ t)))
        ≡ ok (a ++ (hi ∷ lo ∷ (hex_text bytes ++ t))) =
      simp append_assoc at rest in
    rw (hex_loop, first, ◌>>=◌, second) rest'

replicate_end : (k : ℕ) → replicate {A = ℕ} (suc k) 0 ≡ replicate k 0 ++ (0 ∷ [])
replicate_end zero = refl
replicate_end (suc k) = ap (λ s. 0 ∷ s) (replicate_end k)

-- bytes_to_new_hexstring stays inside its array, and gives a text of two digits for each byte with
-- its NUL, from which the bytes can be read back.
pub bytes_to_new_hexstring-reads :
    (bytes : Bytes)
    → All (λ b. b < 256) bytes
    → (text : Bytes) × (bytes_to_new_hexstring bytes ≡ ok (text ++ (0 ∷ [])))
      × (length text ≡ length bytes * 2)
      × (hex_bytes text ≡ bytes)
unfolding bytes_to_new_hexstring
bytes_to_new_hexstring-reads bytes h =
    let n : ℕ = length bytes * 2 in
    let one_more : n + 1 ≡ suc n = omega arith in
    (
      hex_text bytes,
      ap (λ k. hex_loop bytes 0 (replicate k 0)) one_more
          ∙ ap (hex_loop bytes 0) (replicate_end n)
          ∙ hex_loop_lem bytes [] (replicate n 0) (0 ∷ []) 0 refl (length-replicate {A = ℕ} n 0),
      length-hex_text bytes,
      hex_bytes-hex_text bytes h,
    )
