-- ===== src/Client/Requests.antt =====
-- The bytes of each request of redis_storage.c, with its NUL.
use quicke_r.Prelude.{ℕ, List, [], ◌∷◌, ◌++◌, Bytes, codes}
use quicke_r.Memory.{Run, ok, ◌>>=◌, or_fault, poke}
use quicke_r.Text.Split.{space}
use quicke_r.Text.Int.{print_int}
use quicke_r.Server.Update.{Base64}

unfoldable pub get_request : Bytes → Bytes
get_request key = codes "GET " ++ (key ++ (0 ∷ []))

unfoldable pub savedata_request : Bytes → Bytes
savedata_request value = codes "SAVEDATA " ++ (value ++ (0 ∷ []))

unfoldable pub populate_request : Bytes → Bytes
populate_request value = codes "POPULATE " ++ (value ++ (0 ∷ []))

-- The loop that appends the keys, a space behind each but the last.
unfoldable pub key_list : List Bytes → Bytes
key_list [] = []
key_list (k ∷ []) = k
key_list (k ∷ j ∷ ks) = k ++ (space ∷ key_list (j ∷ ks))

-- The size counts a byte for each key behind it, so that without keys no NUL is sent.
unfoldable pub getall_request : List Bytes → Bytes
unfolding key_list
getall_request [] = codes "GETALL "
getall_request (k ∷ ks) = codes "GETALL " ++ (key_list (k ∷ ks) ++ (0 ∷ []))

module _ (b : Base64) where
  unfoldable pub set_request : Bytes → Bytes → Run Bytes
  set_request key value = do
    b64encoded ← or_fault (b.enc value)
    ok (codes "SET " ++ (key ++ (space ∷ (b64encoded ++ (0 ∷ [])))))

  -- The loop that appends the pairs.
  unfoldable pub pair_list : List (Bytes × Bytes) → Run Bytes
  pair_list [] = ok []
  pair_list ((k, v) ∷ []) = do b64encoded ← or_fault (b.enc v); ok (k ++ (space ∷ b64encoded))
  pair_list ((k, v) ∷ kv ∷ kvs) = do
    b64encoded ← or_fault (b.enc v)
    rest ← pair_list (kv ∷ kvs)
    ok (k ++ (space ∷ (b64encoded ++ (space ∷ rest))))

  unfoldable pub setall_request : List (Bytes × Bytes) → Run Bytes
  unfolding pair_list
  setall_request [] = ok (codes "SETALL ")
  setall_request (kv ∷ kvs) = do
    listed ← pair_list (kv ∷ kvs)
    ok (codes "SETALL " ++ (listed ++ (0 ∷ [])))

  -- The size is one more than the text with its NUL: the byte behind is sent too. Of the array
  -- that is encoded only the digits and their NUL were written.
  unfoldable pub root_key_request : Bytes → ℕ → ℕ → Run Bytes
  root_key_request stack behind root_key = do
    root_key_string ← poke stack 0 (print_int root_key ++ (0 ∷ []))
    b64_root_key ← or_fault (b.enc root_key_string)
    ok (codes "ROOTKEY " ++ (b64_root_key ++ (0 ∷ behind ∷ [])))
