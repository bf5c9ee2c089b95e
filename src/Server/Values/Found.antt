-- ===== src/Server/Values/Found.antt =====
-- GETALL on keys that are all there.
use quicke_r.Prelude.{◌≡◌, refl, ap, some, List, [], ◌∷◌, ◌++◌, Bytes, All, map}
use quicke_r.Text.Split.{space, join}
use quicke_r.Server.Redis.{Redis}
use quicke_r.Server.Values.{get_value, joined, looked_up, getall_values}

module _ (r : Redis) where
  -- Each key has its value, which is not empty.
  abbrev pub Found : r.Db → List (Bytes × Bytes) → Type 0
  Found db = All (λ kv. get_value r kv.0 db ≡ some kv.1)

  looked_up-Found :
      (db : r.Db) (kvs : List (Bytes × Bytes))
      → Found db kvs
      → looked_up r (map (λ kv. kv.0) kvs) db ≡ map (λ kv. some kv.1) kvs
  unfolding looked_up
  looked_up-Found db [] h = refl
  looked_up-Found db (kv ∷ kvs) h = rw (h.0, looked_up-Found db kvs h.1) refl

  joined-join :
      (kvs : List (Bytes × Bytes))
      → joined r (map (λ kv. some kv.1) kvs) ≡ join space (map (λ kv. kv.1) kvs)
  unfolding joined
  joined-join [] = refl
  joined-join (kv ∷ []) = refl
  joined-join (kv ∷ kv2 ∷ kvs) = ap (λ s. kv.1 ++ (space ∷ s)) (joined-join (kv2 ∷ kvs))

  pub getall_values-Found :
      (db : r.Db) (kvs : List (Bytes × Bytes))
      → Found db kvs
      → getall_values r (map (λ kv. kv.0) kvs) db ≡ join space (map (λ kv. kv.1) kvs)
  unfolding getall_values
  getall_values-Found db kvs h = rw (looked_up-Found db kvs h) (joined-join kvs)
