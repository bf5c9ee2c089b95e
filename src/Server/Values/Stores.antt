-- ===== src/Server/Values/Stores.antt =====
-- What reads back after the stores of SETALL.
use quicke_r.Prelude.{
  length, ◌≤◌, ◌+◌, ◌≡◌, refl, sym, ap, ◌∙◌, true, false, Option, none, some, List, [], ◌∷◌, ◌++◌,
  Bytes, same, same→eq, if◌then◌else◌, arith, All, Bool-cases, inl, inr,
}
use quicke_r.Memory.{ok, or_fault}
use quicke_r.Memory.Binds.{bind_ok, or_fault_ok}
use quicke_r.Text.Int.{print_int, atoi}
use quicke_r.Server.Redis.{Redis}
use quicke_r.Server.Values.{
  get_value, set_value, pairs, find_root, key_suffix, ctxt_version, print_version, bump_version,
  store_pairs, store_checked, setall_found, setall_values,
}

-- The last value that the pairs give to a key, over the one before them.
unfoldable pub last_value : Bytes → List (Bytes × Bytes) → Option Bytes → Option Bytes
last_value j [] before = before
last_value j ((k, v) ∷ kvs) before = last_value j kvs (if same k j then some v else before)

-- No pair is for the key.
abbrev pub Spares : Bytes → List (Bytes × Bytes) → Type 0
Spares j = All (λ kv. same kv.0 j ≡ false)

pub last_value-spared :
    (j : Bytes) (kvs : List (Bytes × Bytes)) (before : Option Bytes)
    → Spares j kvs
    → last_value j kvs before ≡ before
unfolding last_value
last_value-spared j [] before h = refl
last_value-spared j ((k, v) ∷ kvs) before h = rw h.0 (last_value-spared j kvs before h.1)

module _ (r : Redis) where
  open r use {Db, get, set, get-set}

  pub get-store_pairs :
      (j : Bytes) (kvs : List (Bytes × Bytes)) (db : Db)
      → get (store_pairs r kvs db) j ≡ last_value j kvs (get db j)
  unfolding store_pairs last_value set_value
  get-store_pairs j [] db = refl
  get-store_pairs j ((k, v) ∷ kvs) db = rw (get-store_pairs j kvs (set db k v), get-set db k j v)

  -- A counter that was printed is not empty, so that it is found.
  pub get_value-get : (key v : Bytes) (db : Db) → get_value r key db ≡ some v → get db key ≡ some v
  unfolding get_value
  get_value-get key v db h = ground arith

  -- What a successful increment of the counter stores.
  bump_version-stores :
      (key : Bytes) (db db' : Db)
      → bump_version r key db ≡ ok db'
      → (v : Bytes) × (get db key ≡ some v)
        × (db' ≡ set db key (print_int (atoi v + 1)))
        × (length (print_int (atoi v + 1)) ≤ 9)
  unfolding bump_version print_version set_value
  bump_version-stores key db db' h =
      let (v, found, rest) = bind_ok (or_fault (get_value r key db)) _ h in
      let (next, printed, last) = bind_ok (print_version (atoi v + 1)) _ rest in
      (
        v,
        get_value-get key v db (or_fault_ok (get_value r key db) found),
        ground arith,
        ground (arith, printed),
      )

  -- What a SETALL that returned 1 has done.
  pub record Committed (root : Option Bytes) (tokens : List Bytes) (db db' : Db) : Type 0 where
    pub name : Bytes
    pub value : Bytes
    pub suffix : Bytes
    pub counter : Bytes
    pub found : find_root (pairs tokens) ≡ some (name, value)
    pub current : root ≡ some value
    pub suffixed : key_suffix name ≡ ok suffix
    pub counted : get db (ctxt_version ++ suffix) ≡ some counter
    pub reads :
        (j : Bytes)
        → get db' j
          ≡ last_value j (pairs tokens) (
              if same (ctxt_version ++ suffix) j
              then some (print_int (atoi counter + 1))
              else get db j)
    pub nine : length (print_int (atoi counter + 1)) ≤ 9

  pub record Checked (name : Bytes) (kvs : List (Bytes × Bytes)) (db db' : Db) : Type 0 where
    pub suffix : Bytes
    pub counter : Bytes
    pub suffixed : key_suffix name ≡ ok suffix
    pub counted : get db (ctxt_version ++ suffix) ≡ some counter
    pub is :
        db' ≡ store_pairs r kvs (set db (ctxt_version ++ suffix) (print_int (atoi counter + 1)))
    pub nine : length (print_int (atoi counter + 1)) ≤ 9

  store_checked_lem :
      (name : Bytes) (kvs : List (Bytes × Bytes)) (db db' : Db)
      → store_checked r name kvs db ≡ ok db'
      → Checked name kvs db db'
  unfolding store_checked
  store_checked_lem name kvs db db' h =
      let (suffix, suffixed, rest) = bind_ok (key_suffix name) _ h in
      let (db1, bumped, stored) = bind_ok (bump_version r (ctxt_version ++ suffix) db) _ rest in
      let (v, counted, is1, nine) = bump_version-stores (ctxt_version ++ suffix) db db1 bumped in
      record {
        suffix = suffix;
        counter = v;
        suffixed = suffixed;
        counted = counted;
        is = cc;
        nine = nine;
      }

  setall_found_lem :
      (root : Option Bytes) (name value : Bytes) (kvs : List (Bytes × Bytes)) (db db' : Db)
      → setall_found r root (some (name, value)) kvs db ≡ ok (true, db')
      → (root ≡ some value) × (store_checked r name kvs db ≡ ok db')
  unfolding setall_found
  setall_found_lem root name value kvs db db' h =
      let (current, has_root, rest) = bind_ok (or_fault root) _ h in
      elim (Bool-cases (same value current)) [
        | inr differs ↦ absurd (ground (arith, differs, rest))
        | inl agrees ↦
            let (db2, checked, last) =
              bind_ok (store_checked r name kvs db) _ (rw agrees at rest) in
            (
              or_fault_ok root has_root ∙ ap some (sym (same→eq value current agrees)),
              ground (arith, last, checked),
            )
      ]

  reads_of :
      (key v : Bytes) (kvs : List (Bytes × Bytes)) (db db' : Db) (j : Bytes)
      → db' ≡ store_pairs r kvs (set db key v)
      → get db' j ≡ last_value j kvs (if same key j then some v else get db j)
  reads_of key v kvs db db' j h = rw (h, get-store_pairs j kvs (set db key v), get-set db key j v)

  committed :
      (root : Option Bytes) (tokens : List Bytes) (db db' : Db) (kv : Option (Bytes × Bytes))
      → find_root (pairs tokens) ≡ kv
      → setall_found r root kv (pairs tokens) db ≡ ok (true, db')
      → Committed root tokens db db'
  unfolding setall_found set_value
  committed root tokens db db' none found h = cc
  committed root tokens db db' (some (name, value)) found h =
      let (current, checked) = setall_found_lem root name value (pairs tokens) db db' h in
      let c = store_checked_lem name (pairs tokens) db db' checked in
      record {
        name = name;
        value = value;
        suffix = c.suffix;
        counter = c.counter;
        found = found;
        current = current;
        suffixed = c.suffixed;
        counted = c.counted;
        reads = λ j.
            reads_of (ctxt_version ++ c.suffix) (print_int (atoi c.counter + 1)) (pairs tokens) db
              db' j c.is;
        nine = c.nine;
      }

  -- When SETALL returns 1, its pairs have a first root version key, whose value is the current root
  -- key; the version counter named by that key's last part was there and is one higher, and every
  -- key reads as the last of the pairs gives it, or as before where none does.
  pub setall_values-Committed :
      (root : Option Bytes) (tokens : List Bytes) (db db' : Db)
      → setall_values r root tokens db ≡ ok (true, db')
      → Committed root tokens db db'
  unfolding setall_values
  setall_values-Committed root tokens db db' h =
      committed root tokens db db' (find_root (pairs tokens)) refl h

  refused :
      (root : Option Bytes) (kvs : List (Bytes × Bytes)) (db db' : Db) (kv : Option (Bytes × Bytes))
      → setall_found r root kv kvs db ≡ ok (false, db')
      → db' ≡ db
  unfolding setall_found
  refused root kvs db db' none h = ground arith
  refused root kvs db db' (some (name, value)) h =
      let (current, has_root, rest) = bind_ok (or_fault root) _ h in
      elim (Bool-cases (same value current)) [
        | inr differs ↦ ground (arith, differs, rest)
        | inl agrees ↦
            let (db2, checked, last) =
              bind_ok (store_checked r name kvs db) _ (rw agrees at rest) in
            absurd (ground (arith, last, checked))
      ]

  -- When SETALL returns 0, the database is as it was.
  setall_values-refused :
      (root : Option Bytes) (tokens : List Bytes) (db db' : Db)
      → setall_values r root tokens db ≡ ok (false, db')
      → db' ≡ db
  unfolding setall_values
  setall_values-refused root tokens db db' h =
      refused root (pairs tokens) db db' (find_root (pairs tokens)) h
