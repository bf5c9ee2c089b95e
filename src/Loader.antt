-- ===== src/Loader.antt =====
-- src/main/populate_database_updatable.c: the keys under which the loader stores its ciphertext, what
-- it sends to each server, and the file that says where each key is.
pub mod Names
pub mod Lists
pub mod Located
pub mod Populated
pub mod Found
use quicke_r.Prelude.{
  ℕ, zero, suc, ◌+◌, ◌*◌, ◌-◌, ◌/◌, ◌%◌, ◌^◌, ◌==◌, Bool, true, false, List, [], ◌∷◌, ◌++◌, Bytes,
  codes, length, ltb, leb, if◌then◌else◌,
}
use quicke_r.Memory.{Run, ok, abort, fault, ◌>>=◌}
use quicke_r.Server.Update.{Base64}
use quicke_r.Text.Split.{space}
use quicke_r.Client.{Peer, savedata, populate}

-- `97 + ((int)(i / (int)(pow(26,j))) % 26)`
unfoldable pub key_letter : ℕ → ℕ → ℕ
key_letter i j = 97 + i / 26 ^ j % 26

unfoldable pub letters : ℕ → ℕ → ℕ → Bytes
unfolding key_letter
letters zero i j = []
letters (suc left) i j = key_letter i j ∷ letters left i (suc j)

-- The name of a key, whose size is 5. Its NUL goes one byte behind the five that are allocated, which
-- the model lets pass.
unfoldable pub key_name : ℕ → Bytes
unfolding letters
key_name i = letters 5 i 0

-- The loop that appends the names of one server's keys behind a prefix, a space between two.
unfoldable pub list_loop : ℕ → Bytes → ℕ → ℕ → ℕ → Bytes
list_loop zero prefix j server_count num_of_db_keys = []
list_loop (suc turns) prefix j server_count num_of_db_keys = elim (ltb j num_of_db_keys) [
  | false ↦ []
  | true ↦
      prefix
      ++ (key_name j
          ++ ((if ltb (j + server_count) num_of_db_keys then space ∷ [] else [])
              ++ list_loop turns prefix (j + server_count) server_count num_of_db_keys))
]

-- `char listbuf[1000000]`
abbrev pub listbuf_size : ℕ
listbuf_size = 1000000

unfoldable pub list_text : Bytes → ℕ → ℕ → ℕ → Run Bytes
unfolding list_loop
list_text prefix i server_count num_of_db_keys =
    let text = list_loop (suc num_of_db_keys) prefix i server_count num_of_db_keys in
    if leb (length text + 1) listbuf_size then ok text else fault

-- key_prefix_list and key_type_values, by their index.
abbrev pub Types : Type 0
Types = List (Bytes × Bytes)

abbrev pub types_of : Bytes → Bytes → Bytes → Bytes → Types
types_of b64_key_handle b64_wrapped_key b64_ciphertext_hat b64_ciphertext =
    (codes "root_version_", b64_key_handle)
    ∷ (codes "ctxt_version_", codes "0")
    ∷ (codes "wrap_", b64_wrapped_key)
    ∷ (codes "header_", b64_ciphertext_hat)
    ∷ (codes "data_", b64_ciphertext)
    ∷ []

module _ (p : Peer) (b : Base64) where
  -- What the loader sends to the server `i`: for each type its value, and then the keys that get it.
  unfoldable pub populate_types : Types → ℕ → ℕ → ℕ → p.World → Run p.World
  unfolding list_text
  populate_types [] i server_count num_of_db_keys w = ok w
  populate_types ((prefix, value) ∷ types) i server_count num_of_db_keys w = do
    listbuf ← list_text prefix i server_count num_of_db_keys
    saved ← savedata p b value w
    populated ← populate p b listbuf saved
    populate_types types i server_count num_of_db_keys populated

-- The lines of Output.txt for the first keys: the name and the address of the key's server.
unfoldable pub location_lines : (ℕ → Bytes) → ℕ → ℕ → Bytes
location_lines addresses server_count zero = []
location_lines addresses server_count (suc i) =
    location_lines addresses server_count i
    ++ (key_name i ++ (space ∷ (addresses (i % server_count) ++ (10 ∷ []))))
