-- ===== src/Net/Framing.antt =====
-- recvall puts a message together however it was cut.
use mathlib.Core.List.{flatten}
use quicke_r.Prelude.{
  ℕ, ◌+◌, ◌-◌, ap, ◌∙◌, same_refl, ◌≤◌, ◌<◌, ◌≡◌, ◌≢◌, refl, true, false, List, [], ◌∷◌, ◌++◌,
  append_assoc, append-nil, Bytes, length, length-append, same, lt→ltb, arith,
}
use quicke_r.Memory.{ok, poke, peek}
use quicke_r.Memory.Regions.{parts, poke_at, peek_at}
use quicke_r.Net.{recv_loop, recvall}

-- Deliveries of one message: each but the last ends in a byte that is not NUL, and the last ends in
-- one that is.
abbrev pub Framed : List Bytes → Type 0
Framed [] = ⊥
Framed (c ∷ []) = (w : Bytes) × (c ≡ w ++ (0 ∷ []))
Framed (c ∷ d ∷ cs) = ((w : Bytes) × (x : ℕ) × (x ≢ 0) × (c ≡ w ++ (x ∷ []))) × Framed (d ∷ cs)

last_other : (x : ℕ) → x ≢ 0 → same (x ∷ []) (0 ∷ []) ≡ false
unfolding same
last_other x h = ground arith

-- One call that delivers `w` and `x` into the part `b`.
deliver :
    (w a b t : Bytes) (x at size : ℕ) (cs : List Bytes)
    → at ≡ length a
    → length b ≡ length w + 1
    → at < size
    → recv_loop ((w ++ (x ∷ [])) ∷ cs) at (a ++ (b ++ t)) size ≡ (elim (same (x ∷ []) (0 ∷ [])) [
      | true ↦ ok (at + length (w ++ (x ∷ [])), a ++ ((w ++ (x ∷ [])) ++ t))
      | false ↦ recv_loop cs (at + length (w ++ (x ∷ []))) (a ++ ((w ++ (x ∷ [])) ++ t)) size
    ])
unfolding recv_loop
deliver w a b t x at size cs ha hb room =
    let len : length (w ++ (x ∷ [])) ≡ length w + 1 = length-append w (x ∷ []) in
    let before : at + length (w ++ (x ∷ [])) - 1 ≡ length (a ++ w) =
      omega (arith, len, length-append a w) in
    let read : peek (a ++ ((w ++ (x ∷ [])) ++ t)) (at + length (w ++ (x ∷ [])) - 1) 1
        ≡ ok (x ∷ []) =
      rw (append_assoc w (x ∷ []) t, ← append_assoc a w ((x ∷ []) ++ t))
        (peek_at (a ++ w) (x ∷ []) t _ 1 before refl) in
    rw (
      recv_loop,
      lt→ltb at size room,
      lt→ltb 0 (length (w ++ (x ∷ []))) (omega arith),
      poke_at a b t (w ++ (x ∷ [])) at ha (omega arith),
      read,
    )

-- What the loop does with the deliveries `cs` behind what is there already.
abbrev Receives : List Bytes → Bytes → Type 0
Receives cs message =
    (a b t : Bytes) (at size : ℕ)
    → at ≡ length a
    → length b ≡ length message
    → at + length b ≤ size
    → recv_loop cs at (a ++ (b ++ t)) size ≡ ok (at + length b, a ++ (message ++ t))

delivered_last : (w : Bytes) → Receives ((w ++ (0 ∷ [])) ∷ []) (w ++ (0 ∷ []))
delivered_last w a b t at size ha hb room =
    let size_b : length b ≡ length w + 1 = hb ∙ length-append w (0 ∷ []) in
    rw (deliver w a b t 0 at size [] ha size_b (omega arith), same_refl (0 ∷ []), hb)

delivered_next :
    (w message : Bytes) (x : ℕ) (cs : List Bytes)
    → x ≢ 0
    → Receives cs message
    → Receives ((w ++ (x ∷ [])) ∷ cs) ((w ++ (x ∷ [])) ++ message)
delivered_next w message x cs x_ne ih a b t at size ha hb room =
    let total : length b ≡ length w + 1 + length message =
      omega (arith, length-append (w ++ (x ∷ [])) message, length-append w (x ∷ [])) in
    let y = parts b (length w + 1) (omega arith) in
    let split : b ++ t ≡ y.front ++ (y.back ++ t) =
      ap (λ s. s ++ t) y.whole ∙ append_assoc y.front y.back t in
    let first = deliver w a y.front (y.back ++ t) x at size cs ha y.size (omega arith) in
    let rest =
      ih (a ++ (w ++ (x ∷ []))) y.back t (at + length (w ++ (x ∷ []))) size
        (omega (arith, length-append a (w ++ (x ∷ [])), length-append w (x ∷ [])))
        (omega (arith, y.rest, y.size)) (omega (arith, y.rest, y.size, length-append w (x ∷ []))) in
    let count : at + length b ≡ at + length (w ++ (x ∷ [])) + length y.back =
      omega (arith, y.rest, y.size, length-append w (x ∷ [])) in
    rw (
      split,
      first,
      last_other x x_ne,
      rw
          (
            append_assoc a (w ++ (x ∷ [])) (y.back ++ t),
            append_assoc a (w ++ (x ∷ [])) (message ++ t),
          )
          at rest,
      count,
      append_assoc (w ++ (x ∷ [])) message t,
    )

recv_loop-Framed : (cs : List Bytes) → Framed cs → Receives cs (flatten cs)
unfolding flatten
recv_loop-Framed [] h = absurd h
recv_loop-Framed (c ∷ []) (w, is) = rw (append-nil c, is) (delivered_last w)
recv_loop-Framed (c ∷ d ∷ cs) ((w, x, x_ne, is), h) =
    rw is (delivered_next w (flatten (d ∷ cs)) x (d ∷ cs) x_ne (recv_loop-Framed (d ∷ cs) h))

-- A message that ends in its only final NUL is received whole, in the pieces in which it was
-- delivered, when no piece but the last ends in NUL and the buffer has two bytes more than the
-- message: the number of its bytes is returned, they stand at the front of the buffer, and one byte
-- is left between them and the NUL that is put behind.
pub recvall-Framed :
    (cs : List Bytes) (b t : Bytes) (y z size : ℕ)
    → Framed cs
    → length b ≡ length (flatten cs)
    → length b ≤ size
    → recvall cs (b ++ (y ∷ z ∷ t)) size ≡ ok (length b, flatten cs ++ (y ∷ 0 ∷ t))
unfolding recvall
recvall-Framed cs b t y z size h hb room =
    let made =
      poke_at (flatten cs ++ (y ∷ [])) (z ∷ []) t (0 ∷ []) (length b + 1)
        (omega (arith, length-append (flatten cs) (y ∷ []))) refl in
    let ended : poke (flatten cs ++ (y ∷ z ∷ t)) (length b + 1) (0 ∷ [])
        ≡ ok (flatten cs ++ (y ∷ 0 ∷ t)) =
      simp append_assoc at made in
    let count : 0 + length b ≡ length b = omega arith in
    rw (recv_loop-Framed cs h [] b (y ∷ z ∷ t) 0 size refl hb (omega arith), count, ended)
