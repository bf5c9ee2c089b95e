-- ===== src/Memory/Regions.antt =====
-- Buffers in parts: a write or a read of one part leaves the others alone.
use quicke_r.Prelude.{
  ℕ, zero, suc, ◌+◌, ◌≤◌, ◌≡◌, refl, sym, ap, ◌∙◌, [], ◌∷◌, ◌++◌, append_assoc, Bytes, arith,
  length, take, drop, length-append, length-take, length-drop, take-append-drop, take-append,
  drop-append, le→leb,
}
use quicke_r.Memory.{ok, put_front, overwrite, poke, peek}

put_front-append : (a b src : Bytes) → length a ≡ length src → put_front (a ++ b) src ≡ src ++ b
unfolding put_front
put_front-append [] b [] h = refl
put_front-append [] [] (y ∷ src) h = absurd (omega arith)
put_front-append [] (x ∷ b) (y ∷ src) h = absurd (omega arith)
put_front-append (x ∷ a) b [] h = absurd (omega arith)
put_front-append (x ∷ a) b (y ∷ src) h = ap (λ l. y ∷ l) (put_front-append a b src (omega arith))

overwrite-append :
    (off : ℕ) (a b src : Bytes) → off ≡ length a → overwrite (a ++ b) off src ≡ a ++ put_front b src
unfolding overwrite
overwrite-append zero [] b src h = refl
overwrite-append zero (x ∷ a) b src h = absurd (omega arith)
overwrite-append (suc off) [] b src h = absurd (omega arith)
overwrite-append (suc off) (x ∷ a) b src h =
    ap (λ l. x ∷ l) (overwrite-append off a b src (omega arith))

-- A write of a whole part replaces it and nothing else.
pub poke_at :
    (a b c src : Bytes) (off : ℕ)
    → off ≡ length a
    → length b ≡ length src
    → poke (a ++ (b ++ c)) off src ≡ ok (a ++ (src ++ c))
unfolding poke
poke_at a b c src off ha hb = rw (
  le→leb (off + length src) (length (a ++ (b ++ c)))
      (omega (arith, length-append a (b ++ c), length-append b c)),
  overwrite-append off a (b ++ c) src ha,
  put_front-append b c src hb,
)

-- A read of a whole part.
pub peek_at :
    (a b c : Bytes) (off n : ℕ) → off ≡ length a → n ≡ length b → peek (a ++ (b ++ c)) off n ≡ ok b
unfolding peek
peek_at a b c off n ha hb = rw (
  le→leb (off + n) (length (a ++ (b ++ c)))
      (omega (arith, length-append a (b ++ c), length-append b c)),
  drop-append off a (b ++ c) ha,
  take-append n b c hb,
)

-- A buffer falls into a part of `n` bytes and the rest.
pub record Parts (buf : Bytes) (n : ℕ) : Type 0 where
  pub front : Bytes
  pub back : Bytes
  pub whole : buf ≡ front ++ back
  pub size : length front ≡ n
  pub rest : length front + length back ≡ length buf

pub parts : (buf : Bytes) (n : ℕ) → n ≤ length buf → Parts buf n
parts buf n h = record {
  front = take n buf;
  back = drop n buf;
  whole = sym (take-append-drop n buf);
  size = length-take n buf h;
  rest = omega (arith, length-take n buf h, length-drop n buf);
}

overwrite-nil : (buf : Bytes) (off : ℕ) → off ≤ length buf → overwrite buf off [] ≡ buf
unfolding overwrite put_front
overwrite-nil buf zero h = refl
overwrite-nil [] (suc off) h = elim h [ ]
overwrite-nil (x ∷ buf) (suc off) h = ap (λ l. x ∷ l) (overwrite-nil buf off (omega arith))

-- A write of no byte, within the buffer or at its end, does nothing.
pub poke-nil : (buf : Bytes) (off : ℕ) → off ≤ length buf → poke buf off [] ≡ ok buf
unfolding poke
poke-nil buf off h = rw (le→leb (off + 0) (length buf) (omega arith), overwrite-nil buf off h)

-- A write behind what was written: the next part `b` becomes `src`.
pub poke_next :
    (a s b t src : Bytes) (off : ℕ)
    → off ≡ length a + length s
    → length b ≡ length src
    → poke (a ++ (s ++ (b ++ t))) off src ≡ ok (a ++ (s ++ (src ++ t)))
poke_next a s b t src off ho hb =
    rw (← append_assoc a s (b ++ t), ← append_assoc a s (src ++ t))
      (poke_at (a ++ s) b t src off (omega (arith, length-append a s)) hb)

-- A buffer in the four parts of a ciphertext: an iv, a tag, a text of `n` bytes, and the rest.
pub record Quarters (buf : Bytes) (n room : ℕ) : Type 0 where
  pub b0 : Bytes
  pub b1 : Bytes
  pub b2 : Bytes
  pub b3 : Bytes
  pub whole : buf ≡ b0 ++ (b1 ++ (b2 ++ b3))
  pub size0 : length b0 ≡ 16
  pub size1 : length b1 ≡ 16
  pub size2 : length b2 ≡ n
  pub size3 : length b3 ≡ room

pub quarters : (buf : Bytes) (n room : ℕ) → length buf ≡ 32 + n + room → Quarters buf n room
quarters buf n room h =
    let p = parts buf 16 (omega arith) in
    let q = parts p.back 16 (omega (arith, p.rest, p.size)) in
    let r = parts q.back n (omega (arith, p.rest, p.size, q.rest, q.size)) in
    record {
      b0 = p.front;
      b1 = q.front;
      b2 = r.front;
      b3 = r.back;
      whole = p.whole ∙ ap (λ t. p.front ++ t) (q.whole ∙ ap (λ t. q.front ++ t) r.whole);
      size0 = p.size;
      size1 = q.size;
      size2 = r.size;
      size3 = omega (arith, p.rest, p.size, q.rest, q.size, r.rest, r.size);
    }
