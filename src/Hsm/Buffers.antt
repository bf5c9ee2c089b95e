-- ===== src/Hsm/Buffers.antt =====
-- The writes of hsm_aes_gcm.c into its buffers.
use quicke_r.Prelude.{
  ℕ, ◌+◌, ◌-◌, ◌≤◌, ◌≡◌, refl, sym, ap, ◌∙◌, [], ◌∷◌, ◌++◌, append_assoc, append-nil, Bytes, length,
  length-append, take, take-append, arith,
}
use quicke_r.Memory.{ok, poke}
use quicke_r.Memory.Regions.{parts, poke_at, poke_next}

-- The writes of encrypt_sized into its buffer, and what stands at the front of it then.
pub encrypt_writes :
    (buf iv output : Bytes)
    → length iv ≡ 12
    → 12 + length output ≤ length buf
    → (b1 b2 : Bytes) × (poke buf 12 output ≡ ok b1)
      × (poke b1 0 iv ≡ ok b2)
      × (take (length output + 12) b2 ≡ iv ++ output)
encrypt_writes buf iv output h12 room =
    let f = parts buf 12 (omega arith) in
    let g = parts f.back (length output) (omega (arith, f.rest, f.size)) in
    let whole : buf ≡ f.front ++ (g.front ++ g.back) = f.whole ∙ ap (λ t. f.front ++ t) g.whole in
    (
      f.front ++ (output ++ g.back),
      iv ++ (output ++ g.back),
      ap (λ b. poke b 12 output) whole
          ∙ poke_at f.front g.front g.back output 12 (sym f.size) g.size,
      poke_at [] f.front (output ++ g.back) iv 0 refl (f.size ∙ sym h12),
      ap (take (length output + 12)) (sym (append_assoc iv output g.back))
          ∙ take-append (length output + 12) (iv ++ output) g.back
              (omega (arith, length-append iv output)),
    )

-- A write of an output at the front of a buffer that has room for it.
pub front_write :
    (buf output : Bytes)
    → length output ≤ length buf
    → (tail : Bytes) × (poke buf 0 output ≡ ok (output ++ tail))
      × (length output + length tail ≡ length buf)
front_write buf output room =
    let f = parts buf (length output) room in
    (
      f.back,
      ap (λ b. poke b 0 output) f.whole ∙ poke_at [] f.front f.back output 0 refl f.size,
      omega (arith, f.rest, f.size),
    )

-- The NUL that is put behind `size` bytes of a buffer leaves these as they are.
pub end_write :
    (output tail : Bytes) (size : ℕ)
    → length output ≤ size
    → length output + length tail ≡ size + 1
    → (rest buf : Bytes) × (poke (output ++ tail) size (0 ∷ []) ≡ ok buf)
      × (take size buf ≡ output ++ rest)
end_write output tail size le total =
    let f = parts tail (size - length output) (omega arith) in
    let len : size ≡ length output + length f.front = omega (arith, f.size) in
    let made =
      poke_next output f.front f.back [] (0 ∷ []) size len (omega (arith, f.rest, f.size)) in
    (
      f.front,
      output ++ (f.front ++ (0 ∷ [])),
      ap (λ t. poke (output ++ t) size (0 ∷ [])) f.whole ∙ simp append-nil at made,
      ap (take size) (sym (append_assoc output f.front (0 ∷ [])))
          ∙ take-append size (output ++ f.front) (0 ∷ [])
              (omega (arith, length-append output f.front)),
    )
