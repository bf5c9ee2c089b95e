-- ===== src/Actions/Loops/Answers.antt =====
-- A hardware module that answers in the end, so that every loop around it ends.
use quicke_r.Prelude.{ℕ, ◌<◌, ◌≡◌, Bytes, length}
use quicke_r.Hsm.{Hsm, HsmLaws}
use quicke_r.Actions.Loops.Ends.{Wraps, Reopens}

-- In any session one of the first `patience` calls succeeds; the calls that unwrap a wrapped text
-- fail with the value 7 alone before that. The length of a wrapped text depends on that of the text.
pub record Answers {h : Hsm} (hl : HsmLaws h) (patience : ℕ) : Type 0 where
  pub size : ℕ → ℕ
  pub length-is :
      (handle : ℕ) (plain wrapped : Bytes)
      → hl.Wrapped handle plain wrapped
      → length wrapped ≡ size (length plain)
  pub wraps :
      (handle : ℕ) (plain : Bytes) (s : h.Session)
      → (k : ℕ) × (out : Bytes) × (s' : h.Session) × Wraps h handle plain k s out s'
        × (k < patience)
  pub reopens :
      (handle : ℕ) (plain wrapped : Bytes) (s : h.Session)
      → hl.Wrapped handle plain wrapped
      → (k : ℕ) × (out : Bytes) × (s' : h.Session) × Reopens h handle wrapped k s out s'
        × (k < patience)
