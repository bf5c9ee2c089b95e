-- ===== src/Actions/Values.antt =====
-- The values that upload stores, as download reads them.
use quicke_r.Prelude.{
  ℕ, ◌+◌, ◌^◌, ◌<◌, ◌≡◌, refl, sym, ap, ◌∙◌, [], ◌∷◌, ◌++◌, append_assoc, Bytes, length,
  length-append, replicate, arith,
}
use quicke_r.Memory.{ok, ◌>>=◌, poke, peek}
use quicke_r.Memory.Regions.{parts, poke_at, peek_at}
use quicke_r.Text.Decimal.{decimal}
use quicke_r.Text.Int.{ulong, ulong-small, print_int-decimal, atoi, atoi-decimal_front}
use quicke_r.Text.Width.{length-decimal}
use quicke_r.Nested.Layout.{AeKey, le32, of_le32-le32}
use quicke_r.Actions.{key_bytes, key_of_bytes, handle_string}

pub length-le32 : (n : ℕ) → length (le32 n) ≡ 4
unfolding le32
length-le32 n = refl

-- An AE_key comes back from its bytes, and from a buffer that begins with them.
pub key_of_bytes-key_bytes :
    (k : AeKey) (rest : Bytes)
    → length k.key ≡ 16
    → k.k_t < 2 ^ 32
    → key_of_bytes (key_bytes k ++ rest) ≡ ok k
unfolding key_bytes key_of_bytes
key_of_bytes-key_bytes k rest h16 h32 =
    let first : peek (k.key ++ (le32 k.k_t ++ rest)) 0 16 ≡ ok k.key =
      peek_at [] k.key (le32 k.k_t ++ rest) 0 16 refl (sym h16) in
    let second : peek (k.key ++ (le32 k.k_t ++ rest)) 16 4 ≡ ok (le32 k.k_t) =
      peek_at k.key (le32 k.k_t) rest 16 4 (sym h16) (sym (length-le32 k.k_t)) in
    rw (append_assoc k.key (le32 k.k_t) rest, first, ◌>>=◌, second, of_le32-le32 k.k_t h32) refl

-- A handle that fits an int is printed into `key_handle_string`, and read back from there.
pub handle_string-reads :
    (handle : ℕ)
    → handle < 2 ^ 31
    → (s : Bytes) × (handle_string handle ≡ ok s) × (ulong (atoi s) ≡ handle) × (length s ≡ 15)
unfolding handle_string
handle_string-reads handle h =
    let short = length-decimal handle 9 (omega (arith, h)) in
    let printed = print_int-decimal handle h in
    let text : Bytes = decimal handle ++ (0 ∷ []) in
    let len : length text ≡ length (decimal handle) + 1 = length-append (decimal handle) (0 ∷ []) in
    let f = parts (replicate 15 0) (length text) (omega arith) in
    (
      text ++ f.back,
      ap (λ s. poke (replicate 15 0) 0 (s ++ (0 ∷ []))) printed
          ∙ ap (λ b. poke b 0 text) f.whole
          ∙ poke_at [] f.front f.back text 0 refl f.size,
      ap (λ s. ulong (atoi s)) (append_assoc (decimal handle) (0 ∷ []) f.back)
          ∙ ap ulong (atoi-decimal_front handle f.back h)
          ∙ ulong-small handle h,
      omega (arith, length-append text f.back, f.rest, f.size),
    )
