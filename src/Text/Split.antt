-- ===== src/Text/Split.antt =====
-- split_by_space of src/common/common.c and of database/newSimpleServer/simple_server.c, and
-- split_by_underscore of the latter. `strtok_r` is the C library's.
use quicke_r.Prelude.{
  ℕ, zero, suc, ◌≤◌, ◌≡◌, ◌≢◌, refl, ap, ◌∙◌, Option, none, some, List, [], ◌∷◌, ◌++◌, Bytes,
  length, length-append, ◌==◌, if◌then◌else◌, All, arith,
}

module _ (d : ℕ) where
  -- The delimiters in front of a token.
  unfoldable pub skip : Bytes → Bytes
  skip [] = []
  skip (c ∷ s) = if c == d then skip s else c ∷ s

  -- The text up to the first delimiter, and the text behind that delimiter.
  unfoldable pub span : Bytes → Bytes × Bytes
  span [] = ([], [])
  span (c ∷ s) = let r = span s in if c == d then ([], s) else (c ∷ r.0, r.1)

  unfoldable pub strtok : Bytes → Option (Bytes × Bytes)
  unfolding skip span
  strtok s = elim (skip s) [ [] ↦ none | c ∷ r ↦ some (span (c ∷ r)) ]

  -- The loop `while ((token = strtok_r(rest, d, &rest)))`, a token for each call that finds one.
  -- Both passes of the split make it: the first counts, and the second stores as many.
  pub split_loop : ℕ → Bytes → List Bytes
  unfolding strtok
  split_loop zero s = []
  split_loop (suc fuel) s = elim (strtok s) [ none ↦ [] | some r ↦ r.0 ∷ split_loop fuel r.1 ]

  -- Every token takes a byte at least, so the length of the text is fuel enough.
  unfoldable pub split : Bytes → List Bytes
  unfolding split_loop
  split s = split_loop (length s) s

abbrev pub space : ℕ
space = b' '

abbrev pub underscore : ℕ
underscore = b'_'

unfoldable pub split_by_space : Bytes → List Bytes
unfolding split
split_by_space = split space

unfoldable pub split_by_underscore : Bytes → List Bytes
unfolding split
split_by_underscore = split underscore

-- A word: not empty, without the delimiter.
abbrev pub IsWord : ℕ → Bytes → Type 0
IsWord d w = (w ≢ []) × All (λ c. c ≢ d) w

-- Words with a delimiter between them.
abbrev pub join : ℕ → List Bytes → Bytes
join d [] = []
join d (w ∷ []) = w
join d (w ∷ v ∷ ws) = w ++ (d ∷ join d (v ∷ ws))

module _ (d : ℕ) where
  span-word : (w rest : Bytes) → All (λ c. c ≢ d) w → span d (w ++ (d ∷ rest)) ≡ (w, rest)
  unfolding span
  span-word [] rest h = ground arith
  span-word (c ∷ w) rest h = ground (arith, span-word w rest h.1)

  span_whole : (w : Bytes) → All (λ c. c ≢ d) w → span d w ≡ (w, [])
  unfolding span
  span_whole [] h = refl
  span_whole (c ∷ w) h = ground (arith, span_whole w h.1)

  skip-word : (c : ℕ) (w : Bytes) → c ≢ d → skip d (c ∷ w) ≡ c ∷ w
  unfolding skip
  skip-word c w h = ground arith

  strtok-word :
      (c : ℕ) (w rest : Bytes)
      → All (λ b. b ≢ d) (c ∷ w)
      → strtok d (c ∷ (w ++ (d ∷ rest))) ≡ some (c ∷ w, rest)
  unfolding strtok
  strtok-word c w rest h =
      rw (skip-word c (w ++ (d ∷ rest)) h.0, strtok) (ap some (span-word (c ∷ w) rest h))

  strtok_whole :
      (c : ℕ) (w : Bytes) → All (λ b. b ≢ d) (c ∷ w) → strtok d (c ∷ w) ≡ some (c ∷ w, [])
  unfolding strtok
  strtok_whole c w h = rw (skip-word c w h.0, strtok) (ap some (span_whole (c ∷ w) h))

  split_loop_step :
      (fuel : ℕ) (s t r : Bytes)
      → strtok d s ≡ some (t, r)
      → split_loop d (suc fuel) s ≡ t ∷ split_loop d fuel r
  unfolding split_loop
  split_loop_step fuel s t r h = rw (h, split_loop)

  split_loop-nil : (fuel : ℕ) → split_loop d fuel [] ≡ []
  unfolding split_loop
  split_loop-nil zero = refl
  split_loop-nil (suc fuel) = refl

  split_loop-join :
      (ws : List Bytes) (fuel : ℕ)
      → All (IsWord d) ws
      → length (join d ws) ≤ fuel
      → split_loop d fuel (join d ws) ≡ ws
  split_loop-join [] fuel h le = split_loop-nil fuel
  split_loop-join ([] ∷ ws) fuel h le = absurd (h.0.0 refl)
  split_loop-join ((c ∷ w) ∷ []) zero h le = absurd (omega arith)
  split_loop-join ((c ∷ w) ∷ []) (suc fuel) h le =
      split_loop_step fuel (c ∷ w) (c ∷ w) [] (strtok_whole c w h.0.1)
      ∙ ap (λ t. (c ∷ w) ∷ t) (split_loop-nil fuel)
  split_loop-join ((c ∷ w) ∷ v ∷ ws) zero h le = absurd (omega arith)
  split_loop-join ((c ∷ w) ∷ v ∷ ws) (suc fuel) h le =
      split_loop_step fuel (c ∷ (w ++ (d ∷ join d (v ∷ ws)))) (c ∷ w) (join d (v ∷ ws))
        (strtok-word c w (join d (v ∷ ws)) h.0.1)
      ∙ ap (λ t. (c ∷ w) ∷ t)
          (split_loop-join (v ∷ ws) fuel h.1 (omega (arith, length-append w (d ∷ join d (v ∷ ws)))))

  -- Words, none empty or with the delimiter in it, that are joined by single delimiters are found
  -- again, each and in order.
  pub split-join : (ws : List Bytes) → All (IsWord d) ws → split d (join d ws) ≡ ws
  unfolding split
  split-join ws h = split_loop-join ws (length (join d ws)) h (omega arith)
