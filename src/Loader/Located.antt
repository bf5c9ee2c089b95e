-- ===== src/Loader/Located.antt =====
-- The file that the loader writes, as the update machines read it.
use quicke_r.Prelude.{
  ℕ, zero, suc, ◌-◌, ◌%◌, ◌<◌, ◌≡◌, ◌≢◌, ◌==◌, refl, sym, ap, ◌∙◌, false, Option, some, [], ◌∷◌,
  ◌++◌, append_assoc, append-nil, Bytes, length, length-append, take, take-append, All, All-append,
  get_elem?, get_elem?-append, get_elem?-last, Bool-cases, inl, inr, arith,
}
use quicke_r.Memory.{ok, ◌>>=◌}
use quicke_r.Text.Split.{space, join}
use quicke_r.Server.Values.{c_string}
use quicke_r.Server.Commands.Reply.{c_string-text}
use quicke_r.Wire.Tokens.{IsToken, append-IsToken, join-IsText, split_by_space-join}
use quicke_r.Machines.{KeyList, entry_at}
use quicke_r.Machines.KeyFile.{put_byte, file_lines, entry_of_line, read_entries, read_key_list}
use quicke_r.Loader.{key_name, location_lines}
use quicke_r.Loader.Names.{key_name-IsToken, letters_above}

-- A text without newline.
abbrev pub IsLine : Bytes → Type 0
IsLine = All (λ c. c ≢ 10)

file_lines-line :
    (l rest : Bytes) → IsLine l → file_lines (l ++ (10 ∷ rest)) ≡ (l ++ (10 ∷ [])) ∷ file_lines rest
unfolding file_lines put_byte
file_lines-line [] rest h = refl
file_lines-line (c ∷ l) rest h =
    let other : (c == 10) ≡ false = ground (arith, h.0) in
    rw (file_lines, other, file_lines-line l rest h.1) refl

newline : IsToken (10 ∷ [])
newline = (((λ e. cc), ((λ e. omega arith), tt)), ((λ e. omega arith), tt))

-- A line of a name and an address.
entry_read :
    (key address : Bytes)
    → IsToken key
    → IsToken address
    → entry_of_line ((key ++ (space ∷ address)) ++ (10 ∷ [])) ≡ ok (some (key, address))
unfolding entry_of_line
entry_read key address hk ha =
    let second : Bytes = address ++ (10 ∷ []) in
    let tokens : All IsToken (key ∷ second ∷ []) =
      (hk, (append-IsToken address (10 ∷ []) ha newline, tt)) in
    let text : (key ++ (space ∷ address)) ++ (10 ∷ []) ≡ join space (key ∷ second ∷ []) =
      append_assoc key (space ∷ address) (10 ∷ []) in
    let read : c_string (((key ++ (space ∷ address)) ++ (10 ∷ [])) ++ (0 ∷ []))
        ≡ some (join space (key ∷ second ∷ [])) =
      ap (λ s. c_string (s ++ (0 ∷ []))) text
      ∙ c_string-text (join space (key ∷ second ∷ [])) []
          (join-IsText (key ∷ second ∷ []) tokens) in
    let size : length second - 1 ≡ length address =
      omega (arith, length-append address (10 ∷ [])) in
    let cut : take (length second - 1) second ≡ address =
      take-append (length second - 1) address (10 ∷ []) size in
    rw (entry_of_line, read, ◌>>=◌, split_by_space-join (key ∷ second ∷ []) tokens, cut) refl

module _ (addresses : ℕ → Bytes) (count : ℕ) where
  -- What is read of the first lines.
  abbrev pub entries_to : ℕ → KeyList
  entries_to zero = []
  entries_to (suc i) = entries_to i ++ (some (key_name i, addresses (i % count)) ∷ [])

  line_of : ℕ → Bytes
  line_of i = (key_name i ++ (space ∷ addresses (i % count))) ++ (10 ∷ [])

  length-entries_to : (i : ℕ) → length (entries_to i) ≡ i
  length-entries_to zero = refl
  length-entries_to (suc i) = omega (
    arith,
    length-append (entries_to i) (some (key_name i, addresses (i % count)) ∷ []),
    length-entries_to i,
  )

  name_IsLine : (i : ℕ) → IsLine (key_name i)
  unfolding key_name
  name_IsLine i = letters_above 10 5 i 0 (omega arith)

  module _ (tokens : (i : ℕ) → IsToken (addresses i)) (lines : (i : ℕ) → IsLine (addresses i)) where
    read_on :
        (i : ℕ) (rest : Bytes) (keys : KeyList)
        → read_entries (file_lines rest) ≡ ok keys
        → read_entries (file_lines (location_lines addresses count i ++ rest))
          ≡ ok (entries_to i ++ keys)
    unfolding location_lines read_entries
    read_on zero rest keys h = h
    read_on (suc i) rest keys h =
        let name : Bytes = key_name i in
        let address : Bytes = addresses (i % count) in
        let line : Bytes = name ++ (space ∷ address) in
        let is_line : IsLine line =
          All-append _ name (space ∷ address) (name_IsLine i)
            ((λ e. omega arith), lines (i % count)) in
        let split = file_lines-line line rest is_line in
        let next : read_entries (file_lines (line ++ (10 ∷ rest)))
            ≡ ok (some (name, address) ∷ keys) =
          ap read_entries split
          ∙ rw
              (
                read_entries,
                entry_read name address (key_name-IsToken i) (tokens (i % count)),
                ◌>>=◌,
                h,
              )
              refl in
        let text : location_lines addresses count (suc i) ++ rest
            ≡ location_lines addresses count i ++ (line ++ (10 ∷ rest)) =
          simp append_assoc in
        ap (λ s. read_entries (file_lines s)) text
        ∙ read_on i (line ++ (10 ∷ rest)) (some (name, address) ∷ keys) next
        ∙ ap ok (sym (append_assoc (entries_to i) (some (name, address) ∷ []) keys))

    entry_there :
        (i j : ℕ)
        → j < i
        → get_elem? (entries_to i) j ≡ some (some (key_name j, addresses (j % count)))
    entry_there zero j h = absurd (omega arith)
    entry_there (suc i) j h = elim (Bool-cases (j == i)) [
      | inl last ↦
          let is : j ≡ i = ground (arith, last) in
          let entry : ℕ → Option (Bytes × Bytes) = λ k. some (key_name k, addresses (k % count)) in
          ap (λ k. get_elem? (entries_to i ++ (entry i ∷ [])) k) (is ∙ sym (length-entries_to i))
          ∙ get_elem?-last (entries_to i) (entry i)
          ∙ ap (λ k. some (entry k)) (sym is)
      | inr earlier ↦
          let ne : j ≢ i = ground (arith, earlier) in
          get_elem?-append (entries_to i) _ j (omega (arith, length-entries_to i, ne, h))
          ∙ entry_there i j (omega (arith, ne, h))
    ]

    -- The file that the loader writes is read back as a list of all keys in which each has the
    -- address of the server with the index of the key modulo the number of servers, when the
    -- addresses are words on one line.
    pub read_key_list-location_lines :
        (total j : ℕ)
        → j < total
        → (keys : KeyList) × (read_key_list (location_lines addresses count total) ≡ ok keys)
          × (length keys ≡ total)
          × (entry_at keys j ≡ ok (key_name j, addresses (j % count)))
    unfolding read_key_list entry_at
    read_key_list-location_lines total j below = (
      entries_to total,
      ap (λ s. read_entries (file_lines s))
            (sym (append-nil (location_lines addresses count total)))
          ∙ read_on total [] [] start
          ∙ ap ok (append-nil (entries_to total)),
      length-entries_to total,
      rw (entry_at, entry_there total j below) refl,
    )
      where
        start : read_entries (file_lines []) ≡ ok []
        start = refl
