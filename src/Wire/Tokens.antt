-- ===== src/Wire/Tokens.antt =====
-- The words that a request or a reply is made of.
use quicke_r.Prelude.{
  ℕ, codes, refl, ◌≡◌, ◌≢◌, Bool, true, ◌&&◌, not, List, [], ◌∷◌, ◌++◌, Bytes, All, All-append,
  ◌==◌, arith,
}
use quicke_r.Text.Split.{space, join, IsWord, split_by_space, split-join}
use quicke_r.Server.Commands.Reply.{IsText}

-- A word of a request or a reply: without space and NUL, and not empty.
abbrev pub IsToken : Bytes → Type 0
IsToken w = IsWord space w × IsText w

unfoldable pub avoids : ℕ → Bytes → Bool
avoids d [] = true
avoids d (c ∷ w) = not (c == d) && avoids d w

avoids-All : (d : ℕ) (w : Bytes) → avoids d w ≡ true → All (λ c. c ≢ d) w
unfolding avoids
avoids-All d [] h = tt
avoids-All d (c ∷ w) h = (λ e. ground (arith, e, h), avoids-All d w (ground (arith, h)))

-- A text in which the test finds no delimiter is a word.
pub avoids-IsWord : (d c : ℕ) (w : Bytes) → avoids d (c ∷ w) ≡ true → IsWord d (c ∷ w)
avoids-IsWord d c w h = ((λ e. cc), avoids-All d (c ∷ w) h)

pub avoids-IsToken :
    (c : ℕ) (w : Bytes) → (avoids space (c ∷ w) && avoids 0 (c ∷ w)) ≡ true → IsToken (c ∷ w)
avoids-IsToken c w h =
    (avoids-IsWord space c w (ground (arith, h)), avoids-All 0 (c ∷ w) (ground (arith, h)))

pub append-IsToken : (w v : Bytes) → IsToken w → IsToken v → IsToken (w ++ v)
append-IsToken [] v hw hv = hv
append-IsToken (c ∷ w) v hw hv =
    (((λ e. cc), All-append _ (c ∷ w) v hw.0.1 hv.0.1), All-append _ (c ∷ w) v hw.1 hv.1)

pub join-IsText : (ws : List Bytes) → All IsToken ws → IsText (join space ws)
join-IsText [] h = tt
join-IsText (w ∷ []) h = h.0.1
join-IsText (w ∷ v ∷ ws) h =
    All-append _ w (space ∷ join space (v ∷ ws)) h.0.1
      ((λ e. omega arith), join-IsText (v ∷ ws) h.1)

tokens-words : (ws : List Bytes) → All IsToken ws → All (IsWord space) ws
tokens-words [] h = tt
tokens-words (w ∷ ws) h = (h.0.0, tokens-words ws h.1)

pub split_by_space-join : (ws : List Bytes) → All IsToken ws → split_by_space (join space ws) ≡ ws
unfolding split_by_space
split_by_space-join ws h = split-join space ws (tokens-words ws h)

pub setall_IsToken : IsToken (codes "SETALL")
unfolding avoids
setall_IsToken = avoids-IsToken _ _ refl

pub getall_IsToken : IsToken (codes "GETALL")
unfolding avoids
getall_IsToken = avoids-IsToken _ _ refl
