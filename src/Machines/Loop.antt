-- ===== src/Machines/Loop.antt =====
-- The loop of a round as visits to the share.
use mathlib.Core.Path.{fun_ext}
use quicke_r.Prelude.{
  ℕ, zero, suc, ◌+◌, ◌≤◌, ◌<◌, ◌≡◌, refl, sym, ap, ◌∙◌, Bool, true, false, List, [], ◌∷◌, length,
  ltb, ltb→lt, Bool-cases, inl, inr, arith,
}
use quicke_r.Memory.{Run, ok, ◌>>=◌}
use quicke_r.Crypto.Evp.{Evp}
use quicke_r.Server.Redis.{Redis}
use quicke_r.Server.Update.{Base64}
use quicke_r.Hsm.{Hsm}
use quicke_r.Machines.{Fleet, Visit, KeyList, visit_at, round_loop}
use quicke_r.Machines.Share.{share, share_more, share_none}

module _ (r : Redis) (e : Evp) (b : Base64) (h : Hsm) (patience : ℕ) (visits : ℕ → Visit)
    (keys : KeyList) where
  -- Visits in any order.
  abbrev pub visit_all : List ℕ → Fleet r h → Run (List Bool × Fleet r h)
  visit_all [] w = ok ([], w)
  visit_all (index ∷ rest) w = do
    first ← visit_at r e b h patience visits keys index w
    others ← visit_all rest first.1
    ok (first.0 ∷ others.0, others.1)

  round_more :
      (turns index offset : ℕ) (w : Fleet r h)
      → ltb index (length keys) ≡ true
      → round_loop r e b h (suc turns) patience visits keys index offset w ≡ (
          visit_at r e b h patience visits keys index w >>= (λ first.
            round_loop r e b h turns patience visits keys (index + offset) offset first.1
            >>= (λ rest. ok (first.0 ∷ rest.0, rest.1))))
  unfolding round_loop
  round_more turns index offset w h = rw (round_loop, h) refl

  round_none :
      (turns index offset : ℕ) (w : Fleet r h)
      → ltb index (length keys) ≡ false
      → round_loop r e b h (suc turns) patience visits keys index offset w ≡ ok ([], w)
  unfolding round_loop
  round_none turns index offset w h = rw (round_loop, h) refl

  -- The loop of a round visits the share, and ends.
  pub round_loop-visit_all :
      (turns index offset : ℕ) (w : Fleet r h)
      → 1 ≤ offset
      → 1 ≤ turns
      → length keys < index + turns
      → round_loop r e b h turns patience visits keys index offset w
        ≡ visit_all (share turns index offset (length keys)) w
  round_loop-visit_all zero index offset w some_offset some_turn enough = absurd (omega arith)
  round_loop-visit_all (suc turns) index offset w some_offset some_turn enough =
      elim (Bool-cases (ltb index (length keys))) [
        | inl below ↦
            let some_more : 1 ≤ turns = omega (arith, ltb→lt index (length keys) below) in
            let is_below : index < length keys = ltb→lt index (length keys) below in
            let still_enough : length keys < index + offset + turns = omega arith in
            let rest : (λ (first : Bool × Fleet r h).
              round_loop r e b h turns patience visits keys (index + offset) offset first.1
              >>= (λ rest. ok (first.0 ∷ rest.0, rest.1)))
                ≡ (λ first.
                    visit_all (share turns (index + offset) offset (length keys)) first.1
                    >>= (λ rest. ok (first.0 ∷ rest.0, rest.1))) =
              fun_ext (λ first.
                ap (λ run. run >>= (λ rest. ok (first.0 ∷ rest.0, rest.1)))
                  (round_loop-visit_all turns (index + offset) offset first.1 some_offset some_more
                    still_enough)) in
            round_more turns index offset w below
            ∙ ap (λ k. visit_at r e b h patience visits keys index w >>= k) rest
            ∙ ap (λ js. visit_all js w) (sym (share_more turns index offset (length keys) below))
        | inr over ↦
            round_none turns index offset w over
            ∙ ap (λ js. visit_all js w) (sym (share_none turns index offset (length keys) over))
      ]
