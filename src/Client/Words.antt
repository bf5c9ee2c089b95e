-- ===== src/Client/Words.antt =====
-- The server finds in each request the words that the client put there.
use quicke_r.Prelude.{◌≡◌, refl, ap, some, List, [], ◌∷◌, ◌++◌, Bytes, codes, All}
use quicke_r.Memory.{ok}
use quicke_r.Text.Split.{space, split_by_space, IsWord, join, split-join}
use quicke_r.Server.Update.{Base64}
use quicke_r.Client.Requests.{key_list, pair_list, getall_request, setall_request}

key_list-join : (ks : List Bytes) → key_list ks ≡ join space ks
unfolding key_list
key_list-join [] = refl
key_list-join (k ∷ []) = refl
key_list-join (k ∷ j ∷ ks) = ap (λ s. k ++ (space ∷ s)) (key_list-join (j ∷ ks))

-- A key, a value, and the text that the value is encoded as.
abbrev pub Entry : Type 0
Entry = Bytes × Bytes × Bytes

abbrev pub sent : List Entry → List (Bytes × Bytes)
sent [] = []
sent ((k, v, e) ∷ ts) = (k, v) ∷ sent ts

abbrev pub words_of : List Entry → List Bytes
words_of [] = []
words_of ((k, v, e) ∷ ts) = k ∷ e ∷ words_of ts

module _ (b : Base64) where
  abbrev pub IsEncoded : List Entry → Type 0
  IsEncoded [] = Unit
  IsEncoded ((k, v, e) ∷ ts) = (b.enc v ≡ some e) × IsEncoded ts

  pair_list-join :
      (ts : List Entry) → IsEncoded ts → pair_list b (sent ts) ≡ ok (join space (words_of ts))
  unfolding pair_list
  pair_list-join [] h = refl
  pair_list-join ((k, v, e) ∷ []) h = rw h.0
  pair_list-join ((k, v, e) ∷ t ∷ ts) h = rw (h.0, pair_list-join (t ∷ ts) h.1)

  -- The text of a SETALL request.
  abbrev pub setall_text : List Entry → Bytes
  setall_text ts = join space (codes "SETALL" ∷ words_of ts)

  pub setall_request-join :
      (t : Entry) (ts : List Entry)
      → IsEncoded (t ∷ ts)
      → setall_request b (sent (t ∷ ts)) ≡ ok (setall_text (t ∷ ts) ++ (0 ∷ []))
  unfolding setall_request
  setall_request-join (k, v, e) ts h = rw (pair_list-join ((k, v, e) ∷ ts) h)

  -- A SETALL request for keys and encoded values that are words is the text that the server splits
  -- into the command and these words, each key before its value, with the NUL that ends it.
  pub setall_request-words :
      (t : Entry) (ts : List Entry)
      → IsEncoded (t ∷ ts)
      → All (IsWord space) (codes "SETALL" ∷ words_of (t ∷ ts))
      → (text : Bytes) × (setall_request b (sent (t ∷ ts)) ≡ ok (text ++ (0 ∷ [])))
        × (split_by_space text ≡ codes "SETALL" ∷ words_of (t ∷ ts))
  unfolding split_by_space
  setall_request-words t ts h words = (
    setall_text (t ∷ ts),
    setall_request-join t ts h,
    split-join space (codes "SETALL" ∷ words_of (t ∷ ts)) words,
  )

-- The text of a GETALL request.
abbrev pub getall_text : List Bytes → Bytes
getall_text ks = join space (codes "GETALL" ∷ ks)

pub getall_request-join :
    (k : Bytes) (ks : List Bytes) → getall_request (k ∷ ks) ≡ getall_text (k ∷ ks) ++ (0 ∷ [])
unfolding getall_request
getall_request-join k ks = rw (key_list-join (k ∷ ks))

-- A GETALL request for keys that are words, likewise.
pub getall_request-words :
    (k : Bytes) (ks : List Bytes)
    → All (IsWord space) (codes "GETALL" ∷ k ∷ ks)
    → (text : Bytes) × (getall_request (k ∷ ks) ≡ text ++ (0 ∷ []))
      × (split_by_space text ≡ codes "GETALL" ∷ k ∷ ks)
unfolding split_by_space
getall_request-words k ks words = (
  getall_text (k ∷ ks),
  getall_request-join k ks,
  split-join space (codes "GETALL" ∷ k ∷ ks) words,
)
