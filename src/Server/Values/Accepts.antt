-- ===== src/Server/Values/Accepts.antt =====
-- When the server accepts a SETALL.
use quicke_r.Prelude.{◌+◌, ◌<◌, ◌≡◌, refl, true, some, List, [], ◌∷◌, ◌++◌, Bytes, same_refl, All}
use quicke_r.Memory.{ok, ◌>>=◌}
use quicke_r.Text.Decimal.{decimal}
use quicke_r.Text.Int.{atoi}
use quicke_r.Text.Split.{underscore, join, IsWord, split_by_underscore, split-join}
use quicke_r.Server.Redis.{Redis}
use quicke_r.Server.Values.{
  get_value, set_value, ctxt_version, key_suffix, last_of, find_root, pairs, store_pairs,
  store_checked, setall_found, setall_values,
}
use quicke_r.Server.Values.Counter.{bump_version-decimal}

-- The third part of a key is its suffix.
pub key_suffix-join :
    (a b c : Bytes)
    → All (IsWord underscore) (a ∷ b ∷ c ∷ [])
    → key_suffix (join underscore (a ∷ b ∷ c ∷ [])) ≡ ok c
unfolding key_suffix last_of split_by_underscore
key_suffix-join a b c h = rw (key_suffix, split-join underscore (a ∷ b ∷ c ∷ []) h) refl

module _ (r : Redis) where
  -- A SETALL with a root version key, the current root key at it, and a counter that can be raised,
  -- raises the counter and stores the pairs.
  pub setall_values-accepts :
      (words : List Bytes) (name value suffix v : Bytes) (db : r.Db)
      → find_root (pairs words) ≡ some (name, value)
      → key_suffix name ≡ ok suffix
      → get_value r (ctxt_version ++ suffix) db ≡ some v
      → atoi v + 1 < 1000000000
      → setall_values r (some value) words db
        ≡ ok (
          true,
          store_pairs r
              (pairs words)
              (set_value r (ctxt_version ++ suffix) (decimal (atoi v + 1)) db),
        )
  unfolding setall_values setall_found store_checked
  setall_values-accepts words name value suffix v db found suffixed counted small =
      let bumped = bump_version-decimal r (ctxt_version ++ suffix) v db counted small in
      rw (setall_values, found, ◌>>=◌, same_refl value, suffixed, ◌>>=◌, bumped) refl
