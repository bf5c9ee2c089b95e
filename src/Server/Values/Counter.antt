-- ===== src/Server/Values/Counter.antt =====
-- The room that setall_values and up_update have for a version counter.
use quicke_r.Prelude.{
  ℕ, ◌+◌, ◌≤◌, ◌<◌, ◌-◌, ◌%◌, ◌^◌, ◌≡◌, refl, ◌↔◌, ◌⊎◌, leb, some, Bytes, length, le→leb, ltb,
  ltb→lt, Bool-cases, inl, inr, arith,
}
use quicke_r.Memory.{ok, ◌>>=◌}
use quicke_r.Text.Decimal.{decimal}
use quicke_r.Text.Int.{print_int, print_int-decimal, atoi}
use quicke_r.Text.Width.{length-decimal, length-decimal_long}
use quicke_r.Server.Redis.{Redis}
use quicke_r.Server.Values.{get_value, set_value, print_version, bump_version}

pub print_version-fits : (n : ℕ) → n < 1000000000 → print_version n ≡ ok (decimal n)
unfolding print_version
print_version-fits n h =
    rw
      (
        print_int-decimal n (omega (arith, h)),
        le→leb (length (decimal n) + 1) 10 (omega (arith, length-decimal n 8 h)),
      )
      refl

-- The ints that take at most nine characters: they lie between -99999999 and 999999999.
abbrev pub HasNine : ℕ → Type 0
HasNine n = (n % 2 ^ 32 < 1000000000) ⊎ (2 ^ 32 - 100000000 < n % 2 ^ 32)

length-print_int : (n : ℕ) → (length (print_int n) ≤ 9) ↔ HasNine n
unfolding print_int
length-print_int n = elim (Bool-cases (ltb (n % 2 ^ 32) (2 ^ 31))) [
  | inl positive ↦ rw positive (
    (λ short. elim (Bool-cases (ltb (n % 2 ^ 32) 1000000000)) [
      | inl small ↦ inl (ltb→lt _ _ small)
      | inr large ↦ absurd (ground (arith, large, short, length-decimal_long (n % 2 ^ 32) 9))
    ]),
    (λ nine. elim nine [
      | inl small ↦ length-decimal (n % 2 ^ 32) 8 small
      | inr high ↦ absurd (omega (arith, ltb→lt _ _ positive, high))
    ]),
  )
  | inr negative ↦
      let bound : n % 2 ^ 32 < 2 ^ 32 = omega arith in
      let high : 2 ^ 31 ≤ n % 2 ^ 32 = ground (arith, negative) in
      rw negative (
        (λ short. elim (Bool-cases (ltb (2 ^ 32 - 100000000) (n % 2 ^ 32))) [
          | inl small ↦ inr (ltb→lt _ _ small)
          | inr large ↦
              absurd (ground (arith, large, short, length-decimal_long (2 ^ 32 - n % 2 ^ 32) 8))
        ]),
        (λ nine. elim nine [
          | inl small ↦ absurd (omega (arith, high, small))
          | inr above ↦ omega (arith, length-decimal (2 ^ 32 - n % 2 ^ 32) 7 (omega (arith, above)))
        ]),
      )
]

module _ (r : Redis) where
  bump_cases :
      (key v : Bytes) (db : r.Db)
      → get_value r key db ≡ some v
      → bump_version r key db
        ≡ (print_version (atoi v + 1) >>= (λ next. ok (set_value r key next db)))
  unfolding bump_version
  bump_cases key v db h = rw h refl

  -- A counter that is there, whatever text it is, is raised and stored exactly where the int that
  -- follows the one that atoi reads takes at most nine characters: a longer one is written past the
  -- ten bytes of `new_ctxt_version_value`.
  pub bump_version-fits :
      (key v : Bytes) (db : r.Db)
      → get_value r key db ≡ some v
      → (bump_version r key db ≡ ok (set_value r key (print_int (atoi v + 1)) db))
        ↔ HasNine (atoi v + 1)
  unfolding print_version
  bump_version-fits key v db h = (there, back)
    where
      there :
          bump_version r key db ≡ ok (set_value r key (print_int (atoi v + 1)) db)
          → HasNine (atoi v + 1)
      there stored = elim (Bool-cases (leb (length (print_int (atoi v + 1)) + 1) 10)) [
        | inl small ↦ (length-print_int (atoi v + 1)).0 (ground (arith, small))
        | inr large ↦ absurd (ground (arith, rw large at (bump_cases key v db h), stored))
      ]

      back :
          HasNine (atoi v + 1)
          → bump_version r key db ≡ ok (set_value r key (print_int (atoi v + 1)) db)
      back nine =
          rw
            (
              bump_cases key v db h,
              le→leb (length (print_int (atoi v + 1)) + 1) 10
                  (omega (arith, (length-print_int (atoi v + 1)).1 nine)),
            )
            refl

  -- A counter that can be raised to a number below 10 ^ 9.
  pub bump_version-decimal :
      (key v : Bytes) (db : r.Db)
      → get_value r key db ≡ some v
      → atoi v + 1 < 1000000000
      → bump_version r key db ≡ ok (set_value r key (decimal (atoi v + 1)) db)
  bump_version-decimal key v db h small =
      rw (bump_cases key v db h, print_version-fits (atoi v + 1) small) refl
