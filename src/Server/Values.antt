-- ===== src/Server/Values.antt =====
-- get_value, set_value, getall_values, setall_values and the root key of simple_server.c.
pub mod Stores
pub mod Found
pub mod Counter
pub mod Accepts
use mathlib.Core.Option
use quicke_r.Prelude.{
  ℕ, zero, suc, ◌+◌, ◌-◌, ◌^◌, Bool, true, false, Option, none, some, List, [], ◌∷◌, ◌++◌, Bytes,
  codes, length, take, drop, same, leb, ltb, ◌==◌, if◌then◌else◌, replicate,
}
use quicke_r.Memory.{Run, ok, fault, ◌>>=◌, or_fault, poke}
use quicke_r.Text.Split.{split_by_underscore}
use quicke_r.Text.Decimal.{decimal}
use quicke_r.Text.Int.{print_int, atoi}
use quicke_r.Server.Redis.{Redis}

-- The text up to the first NUL, and `none` where there is none and `strlen` runs off the end.
unfoldable pub c_string : Bytes → Option Bytes
c_string [] = none
c_string (c ∷ s) = if c == 0 then some [] else Option.map (λ t. c ∷ t) (c_string s)

module _ (r : Redis) where
  open r use {Db, get, set}

  -- The length that get_value returns and the pointer that it stores: a missing key and an empty
  -- value both give 0 and NULL.
  unfoldable pub get_value : Bytes → Db → Option Bytes
  get_value key db = elim (get db key) [
    | none ↦ none
    | some v ↦ if length v == 0 then none else some v
  ]

  unfoldable pub set_value : Bytes → Bytes → Db → Db
  set_value key value db = set db key value

  -- The values that were found, with a space after each key but the last, found or not.
  joined : List (Option Bytes) → Bytes
  joined [] = []
  joined (none ∷ []) = []
  joined (some v ∷ []) = v
  joined (none ∷ w ∷ ws) = b' ' ∷ joined (w ∷ ws)
  joined (some v ∷ w ∷ ws) = v ++ (b' ' ∷ joined (w ∷ ws))

  looked_up : List Bytes → Db → List (Option Bytes)
  unfolding get_value
  looked_up [] db = []
  looked_up (k ∷ ks) db = get_value k db ∷ looked_up ks db

  -- The reply of GETALL, without its NUL.
  unfoldable pub getall_values : List Bytes → Db → Bytes
  unfolding joined looked_up
  getall_values keys db = joined (looked_up keys db)

-- `key_values[i*2]` and `key_values[i*2 + 1]` for i below `numkeys / 2`.
unfoldable pub pairs : List Bytes → List (Bytes × Bytes)
pairs [] = []
pairs (k ∷ []) = []
pairs (k ∷ v ∷ rest) = (k, v) ∷ pairs rest

-- "root_version_", "ctxt_version_"
abbrev pub root_version : Bytes
root_version = codes "root_version_"

abbrev pub ctxt_version : Bytes
ctxt_version = codes "ctxt_version_"

-- `strlen(key_name) >= 13 && strncmp(key_name, "root_version_", 13) == 0`
unfoldable pub is_root_version : Bytes → Bool
is_root_version key = same (take 13 key) root_version

-- The first loop of setall_values, which ends at the first root version key.
unfoldable pub find_root : List (Bytes × Bytes) → Option (Bytes × Bytes)
unfolding is_root_version
find_root [] = none
find_root ((k, v) ∷ kvs) =
    let rest = find_root kvs in if is_root_version k then some (k, v) else rest

last_of : Bytes → List Bytes → Bytes
last_of w [] = w
last_of w (v ∷ vs) = last_of v vs

-- The last part of the key. Three parts are printed on the way, so fewer are a read past the array.
unfoldable pub key_suffix : Bytes → Run Bytes
unfolding last_of
key_suffix key = elim (split_by_underscore key) [
  | a ∷ b ∷ c ∷ rest ↦ ok (last_of c rest)
  | _ ↦ fault
]

-- `sprintf` of an int into `char new_ctxt_version_value[10]`.
unfoldable pub print_version : ℕ → Run Bytes
print_version n = if leb (length (print_int n) + 1) 10 then ok (print_int n) else fault

module _ (r : Redis) where
  open r use {Db}

  -- The version counter at a key, one higher, and the loop that stores the pairs. A missing
  -- counter is a NULL that `atoi` reads.
  pub bump_version : Bytes → Db → Run Db
  bump_version key db = do
    value ← or_fault (get_value r key db)
    next ← print_version (atoi value + 1)
    ok (set_value r key next db)

  unfoldable pub store_pairs : List (Bytes × Bytes) → Db → Db
  store_pairs [] db = db
  store_pairs ((k, v) ∷ kvs) db = store_pairs kvs (set_value r k v db)

  -- The stores of setall_values after the root key was found to match.
  pub store_checked : Bytes → List (Bytes × Bytes) → Db → Run Db
  unfolding bump_version store_pairs
  store_checked root_key_name kvs db = do
    suffix ← key_suffix root_key_name
    db' ← bump_version (ctxt_version ++ suffix) db
    ok (store_pairs kvs db')

  -- `true` is the return of 1. The root key is a C string, `none` where it does not end.
  setall_found : Option Bytes → Option (Bytes × Bytes) → List (Bytes × Bytes) → Db → Run (Bool × Db)
  unfolding store_checked
  setall_found current_root_key none kvs db = ok (false, db)
  setall_found current_root_key (some (name, value)) kvs db = do
    current ← or_fault current_root_key
    let stored : Run (Bool × Db) = do db' ← store_checked name kvs db; ok (true, db')
    if same value current then stored else ok (false, db)

  unfoldable pub setall_values : Option Bytes → List Bytes → Db → Run (Bool × Db)
  unfolding setall_found
  setall_values current_root_key key_values db =
      let kvs = pairs key_values in setall_found current_root_key (find_root kvs) kvs db

-- The command ROOTKEY on the array `current_root_key[20]`: the first bytes are cleared and then
-- written, and what an earlier, longer key left behind them stays.
unfoldable pub update_root_key : Bytes → Bytes → Run Bytes
update_root_key key array = do cleared ← poke array 0 (replicate (length key) 0); poke cleared 0 key
