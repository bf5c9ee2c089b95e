-- ===== src/Server/Commands/Reply.antt =====
-- What the client reads of a reply.
use quicke_r.Prelude.{
  ℕ, ◌+◌, ◌≡◌, ◌≢◌, refl, ap, ◌∙◌, some, [], ◌∷◌, ◌++◌, append_assoc, Bytes, length, length-append,
  ◌==◌, if◌then◌else◌, All, All-append, Bool-cases, inl, inr, arith,
}
use quicke_r.Memory.{ok, poke}
use quicke_r.Memory.Regions.{parts, poke_at}
use quicke_r.Server.Values.{c_string}
use quicke_r.Server.Commands.{reply}

-- A text: no byte is NUL.
abbrev pub IsText : Bytes → Type 0
IsText = All (λ c. c ≢ 0)

pub c_string-text : (w rest : Bytes) → IsText w → c_string (w ++ (0 ∷ rest)) ≡ some w
unfolding c_string
c_string-text [] rest h = refl
c_string-text (c ∷ w) rest h = ground (arith, c_string-text w rest h.1)

-- The text that the NUL one byte behind the result leaves.
pub c_string-stale :
    (result rest : Bytes) (x : ℕ)
    → IsText result
    → c_string (result ++ (x ∷ 0 ∷ rest)) ≡ some (if x == 0 then result else result ++ (x ∷ []))
c_string-stale result rest x h = elim (Bool-cases (x == 0)) [
  | inl ended ↦
      let is0 : x ≡ 0 = ground (arith, ended) in rw (ended, is0) (c_string-text result (0 ∷ rest) h)
  | inr other ↦
      let not0 : x ≢ 0 = ground (arith, other) in
      let found =
        c_string-text (result ++ (x ∷ [])) rest (All-append _ result (x ∷ []) h (not0, tt)) in
      rw other (rw (append_assoc result (x ∷ []) (0 ∷ rest)) at found)
]

-- What reply does with a buffer that has two bytes more than the result.
pub reply-runs :
    (result front rest text : Bytes) (x y : ℕ)
    → length front ≡ length result
    → c_string (result ++ (x ∷ 0 ∷ rest)) ≡ some text
    → (after : Bytes) × (reply (front ++ (x ∷ y ∷ rest)) result ≡ ok (text, after))
      × (length after ≡ length result + 2 + length rest)
unfolding reply
reply-runs result front rest text x y size read =
    let made =
      poke_at (result ++ (x ∷ [])) (y ∷ []) rest (0 ∷ []) (length result + 1)
        (omega (arith, length-append result (x ∷ []))) refl in
    let second : poke (result ++ (x ∷ y ∷ rest)) (length result + 1) (0 ∷ [])
        ≡ ok (result ++ (x ∷ 0 ∷ rest)) =
      simp append_assoc at made in
    let total = length-append result (x ∷ 0 ∷ rest) in
    let f = parts (result ++ (x ∷ 0 ∷ rest)) 1 (omega (arith, total)) in
    let cleared : poke (result ++ (x ∷ 0 ∷ rest)) 0 (0 ∷ []) ≡ ok ((0 ∷ []) ++ f.back) =
      ap (λ b. poke b 0 (0 ∷ [])) f.whole ∙ poke_at [] f.front f.back (0 ∷ []) 0 refl f.size in
    (
      (0 ∷ []) ++ f.back,
      rw (poke_at [] front (x ∷ y ∷ rest) result 0 refl size, second, read, cleared) refl,
      omega (arith, total, f.rest, f.size),
    )

-- A result without a NUL is followed by the byte that stood behind it in the buffer, unless that
-- byte is NUL: the text of the reply is the result, or the result with one byte of the request or
-- of an older reply. The buffer keeps its size.
pub reply-stale :
    (result front rest : Bytes) (x y : ℕ)
    → IsText result
    → length front ≡ length result
    → (after : Bytes) × (reply (front ++ (x ∷ y ∷ rest)) result
        ≡ ok (if x == 0 then result else result ++ (x ∷ []), after))
      × (length after ≡ length result + 2 + length rest)
reply-stale result front rest x y h size =
    reply-runs result front rest _ x y size (c_string-stale result rest x h)
