-- ===== src/Loader/Lists.antt =====
-- The list of one server's keys is a share of them.
use quicke_r.Prelude.{
  ℕ, zero, suc, ◌+◌, ◌≤◌, ◌<◌, ◌≡◌, ◌⊎◌, ◌*◌, subst, length-append, refl, sym, ap, ◌∙◌, Bool, true,
  false, List, [], ◌∷◌, ◌++◌, append_assoc, append-nil, Bytes, map, length, ltb, ltb→lt, Bool-cases,
  inl, inr, All, if◌then◌else◌, arith,
}
use quicke_r.Text.Split.{space, join}
use quicke_r.Machines.Share.{share, share_more, share_none}
use quicke_r.Wire.Tokens.{IsToken, append-IsToken}
use quicke_r.Loader.Names.{key_name-IsToken, length-key_name}
use quicke_r.Loader.{key_name, list_loop}

-- The keys of a server behind a prefix.
abbrev pub prefixed : Bytes → List ℕ → List Bytes
prefixed prefix = map (λ j. prefix ++ key_name j)

loop_more :
    (turns j count total : ℕ) (prefix : Bytes)
    → ltb j total ≡ true
    → list_loop (suc turns) prefix j count total
      ≡ prefix
        ++ (key_name j
            ++ ((if ltb (j + count) total then space ∷ [] else [])
                ++ list_loop turns prefix (j + count) count total))
unfolding list_loop
loop_more turns j count total prefix h = rw (list_loop, h) refl

loop_none :
    (turns j count total : ℕ) (prefix : Bytes)
    → ltb j total ≡ false
    → list_loop turns prefix j count total ≡ []
unfolding list_loop
loop_none zero j count total prefix h = refl
loop_none (suc turns) j count total prefix h = rw (list_loop, h) refl

share_over : (turns j count total : ℕ) → ltb j total ≡ false → share turns j count total ≡ []
share_over zero j count total h = refl
share_over (suc turns) j count total h = share_none turns j count total h

-- What stands behind the first key.
behind :
    (prefix name text : Bytes) (more : Bool) (j k : ℕ) (ks later : List ℕ)
    → more ≡ true
    → later ≡ k ∷ ks
    → text ≡ join space (prefixed prefix later)
    → prefix ++ (key_name j ++ ((if more then space ∷ [] else []) ++ text))
      ≡ join space (prefixed prefix (j ∷ later))
behind prefix name text more j k ks later h is t =
    rw (h, t, is)
      (sym (append_assoc prefix (key_name j) (space ∷ join space (prefixed prefix (k ∷ ks)))))

last_one :
    (prefix text : Bytes) (more : Bool) (j : ℕ) (later : List ℕ)
    → more ≡ false
    → later ≡ []
    → text ≡ []
    → prefix ++ (key_name j ++ ((if more then space ∷ [] else []) ++ text))
      ≡ join space (prefixed prefix (j ∷ later))
last_one prefix text more j later h is t = rw (h, t, is, append-nil (key_name j)) refl

-- The loop makes the list of the share, words with a space between two.
pub list_loop-join :
    (turns j count total : ℕ) (prefix : Bytes)
    → 1 ≤ count
    → 1 ≤ turns
    → total < j + turns
    → list_loop turns prefix j count total
      ≡ join space (prefixed prefix (share turns j count total))
list_loop-join zero j count total prefix some_server some_turn enough = absurd (omega arith)
list_loop-join (suc turns) j count total prefix some_server some_turn enough =
    elim (Bool-cases (ltb j total)) [
      | inr over ↦
          loop_none (suc turns) j count total prefix over
          ∙ ap (λ js. join space (prefixed prefix js))
              (sym (share_over (suc turns) j count total over))
      | inl below ↦
          loop_more turns j count total prefix below
          ∙ rest turns (ltb→lt j total below) (omega arith)
              (list_loop-join turns (j + count) count total prefix some_server
                (omega (arith, ltb→lt j total below)) (omega arith))
              (Bool-cases (ltb (j + count) total))
          ∙ ap (λ js. join space (prefixed prefix js)) (sym (share_more turns j count total below))
    ]
  where
    rest :
        (turns : ℕ)
        → j < total
        → total < j + suc turns
        → list_loop turns prefix (j + count) count total
          ≡ join space (prefixed prefix (share turns (j + count) count total))
        → (ltb (j + count) total ≡ true) ⊎ (ltb (j + count) total ≡ false)
        → prefix
            ++ (key_name j
                ++ ((if ltb (j + count) total then space ∷ [] else [])
                    ++ list_loop turns prefix (j + count) count total))
          ≡ join space (prefixed prefix (j ∷ share turns (j + count) count total))
    rest zero below enough same t = absurd (omega arith)
    rest (suc turns) below enough same (inl more) =
        behind prefix (key_name j) (list_loop (suc turns) prefix (j + count) count total)
          (ltb (j + count) total) j (j + count) (share turns (j + count + count) count total)
          (share (suc turns) (j + count) count total) more
          (share_more turns (j + count) count total more) same
    rest (suc turns) below enough same (inr over) =
        last_one prefix (list_loop (suc turns) prefix (j + count) count total)
          (ltb (j + count) total) j (share (suc turns) (j + count) count total) over
          (share_over (suc turns) (j + count) count total over)
          (loop_none (suc turns) (j + count) count total prefix over)

pub length-share : (turns j count total : ℕ) → length (share turns j count total) ≤ turns
length-share zero j count total = omega arith
length-share (suc turns) j count total = elim (Bool-cases (ltb j total)) [
  | inl below ↦
      subst (λ js. length js ≤ suc turns) (sym (share_more turns j count total below))
        (omega (arith, length-share turns (j + count) count total))
  | inr over ↦
      subst (λ js. length js ≤ suc turns) (sym (share_none turns j count total over)) (omega arith)
]

pub length-prefixed :
    (prefix : Bytes) (js : List ℕ)
    → length prefix ≤ 13
    → length (join space (prefixed prefix js)) ≤ 19 * length js
length-prefixed prefix [] h = omega arith
length-prefixed prefix (j ∷ []) h =
    omega (arith, length-append prefix (key_name j), length-key_name j)
length-prefixed prefix (j ∷ k ∷ js) h = omega (
  arith,
  length-append (prefix ++ key_name j) (space ∷ join space (prefixed prefix (k ∷ js))),
  length-append prefix (key_name j),
  length-key_name j,
  length-prefixed prefix (k ∷ js) h,
)

pub prefixed-tokens :
    (prefix : Bytes) (js : List ℕ) → IsToken prefix → All IsToken (prefixed prefix js)
prefixed-tokens prefix [] h = tt
prefixed-tokens prefix (j ∷ js) h =
    (append-IsToken prefix (key_name j) h (key_name-IsToken j), prefixed-tokens prefix js h)
