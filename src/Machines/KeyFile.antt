-- ===== src/Machines/KeyFile.antt =====
-- The part of ciphertext_updates_updatable_encryption.c that reads the file of keys, which is also
-- read_address_file_to_arr of update_round_coordinator.c and of populate_database_updatable.c.
use quicke_r.Prelude.{
  ℕ, ◌-◌, ◌==◌, Option, none, some, List, [], ◌∷◌, ◌++◌, Bytes, length, take, if◌then◌else◌,
}
use quicke_r.Memory.{Run, ok, ◌>>=◌, or_fault}
use quicke_r.Text.Split.{split_by_space}
use quicke_r.Server.Values.{c_string}
use quicke_r.Machines.{KeyList}

-- The byte goes to the line that follows, which is the last if there is none.
unfoldable pub put_byte : ℕ → List Bytes → List Bytes
put_byte c [] = (c ∷ []) ∷ []
put_byte c (line ∷ lines) = (c ∷ line) ∷ lines

-- The lines that `getline` gives, each with its newline.
unfoldable pub file_lines : Bytes → List Bytes
unfolding put_byte
file_lines [] = []
file_lines (c ∷ s) =
    let rest = file_lines s in if c == 10 then (10 ∷ []) ∷ rest else put_byte c rest

-- The two words of a line, without the last byte of the second; another line leaves its entry unset.
unfoldable pub entry_of_line : Bytes → Run (Option (Bytes × Bytes))
entry_of_line line = do
  text ← or_fault (c_string (line ++ (0 ∷ [])))
  elim (split_by_space text) [
    | key ∷ address ∷ [] ↦ ok (some (key, take (length address - 1) address))
    | _ ↦ ok none
  ]

unfoldable pub read_entries : List Bytes → Run KeyList
unfolding entry_of_line
read_entries [] = ok []
read_entries (line ∷ lines) = do
  entry ← entry_of_line line
  entries ← read_entries lines
  ok (entry ∷ entries)

unfoldable pub read_key_list : Bytes → Run KeyList
unfolding read_entries file_lines
read_key_list file = read_entries (file_lines file)
