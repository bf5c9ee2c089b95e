-- ===== src/Wire/Accepted.antt =====
-- An upload that the server accepts, and what its store then has.
use quicke_r.Prelude.{
  ◌+◌, ◌≤◌, ◌<◌, ◌≡◌, refl, ◌∙◌, true, false, some, List, [], ◌∷◌, ◌++◌, Bytes, codes, length, same,
  same_refl, ◌==◌, arith, ℕ,
}
use quicke_r.Memory.{ok}
use quicke_r.Text.Decimal.{decimal}
use quicke_r.Text.Int.{atoi}
use quicke_r.Text.Split.{underscore, IsWord}
use quicke_r.Text.Width.{length-decimal_some}
use quicke_r.Server.Redis.{Redis}
use quicke_r.Server.Update.{Base64}
use quicke_r.Server.Update.Recode.{IsFaithful}
use quicke_r.Server.Values.{
  get_value, set_value, ctxt_version, key_suffix, find_root, is_root_version, pairs, store_pairs,
  setall_values,
}
use quicke_r.Server.Values.Stores.{last_value, get-store_pairs}
use quicke_r.Server.Values.Accepts.{key_suffix-join, setall_values-accepts}
use quicke_r.Wire.Tokens.{avoids, avoids-IsWord}
use quicke_r.Server.Values.Found.{Found}
use quicke_r.Client.Words.{Entry}
use quicke_r.Actions.{wrap_id, header_id, data_id, root_version_id}

-- The keys, the values and their texts.
abbrev pub entries_of :
    {b : Base64} → IsFaithful b → Bytes → Bytes → Bytes → Bytes → Bytes → List Entry
entries_of f id v1 v2 v3 v4 =
    (wrap_id id, v1, f.text v1)
    ∷ (header_id id, v2, f.text v2)
    ∷ (data_id id, v3, f.text v3)
    ∷ (root_version_id id, v4, f.text v4)
    ∷ []

-- What is stored, over four texts.
abbrev pub texts_of : Bytes → Bytes → Bytes → Bytes → Bytes → List (Bytes × Bytes)
texts_of id v1 v2 v3 v4 =
    (wrap_id id, v1) ∷ (header_id id, v2) ∷ (data_id id, v3) ∷ (root_version_id id, v4) ∷ []

suffix_of : (id : Bytes) → IsWord underscore id → key_suffix (root_version_id id) ≡ ok id
unfolding root_version_id avoids
suffix_of id h =
    key_suffix-join (codes "root") (codes "version") id
      (avoids-IsWord underscore _ _ refl, (avoids-IsWord underscore _ _ refl, (h, tt)))

found_root :
    (id v1 v2 v3 v4 : Bytes) → find_root (texts_of id v1 v2 v3 v4) ≡ some (root_version_id id, v4)
unfolding find_root is_root_version wrap_id header_id data_id root_version_id same
found_root id v1 v2 v3 v4 = refl

module _ (r : Redis) where
  open r use {Db, get, set, get-set}

  -- A value that is not empty is found.
  pub get_value_of :
      (key v : Bytes) (db : Db) → get db key ≡ some v → 1 ≤ length v → get_value r key db ≡ some v
  unfolding get_value
  get_value_of key v db h some_bytes =
      let full : (length v == 0) ≡ false = ground (arith, some_bytes) in
      rw (get_value, h, full) refl

  -- The four values are found after they were stored, over whatever was there.
  pub store_pairs-Found :
      (id v1 v2 v3 v4 : Bytes) (db : Db)
      → 1 ≤ length v1
      → 1 ≤ length v2
      → 1 ≤ length v3
      → 1 ≤ length v4
      → Found r (store_pairs r (texts_of id v1 v2 v3 v4) db) (texts_of id v1 v2 v3 v4)
  unfolding last_value wrap_id header_id data_id root_version_id same
  store_pairs-Found id v1 v2 v3 v4 db h1 h2 h3 h4 =
      let kvs : List (Bytes × Bytes) = texts_of id v1 v2 v3 v4 in
      (
        get_value_of (wrap_id id) v1 (store_pairs r kvs db)
            (get-store_pairs r (wrap_id id) kvs db ∙ rw (same_refl id) refl) h1,
        (
          get_value_of (header_id id) v2 (store_pairs r kvs db)
              (get-store_pairs r (header_id id) kvs db ∙ rw (same_refl id) refl) h2,
          (
            get_value_of (data_id id) v3 (store_pairs r kvs db)
                (get-store_pairs r (data_id id) kvs db ∙ rw (same_refl id) refl) h3,
            (
              get_value_of (root_version_id id) v4 (store_pairs r kvs db)
                  (get-store_pairs r (root_version_id id) kvs db ∙ rw (same_refl id) refl) h4,
              tt,
            ),
          ),
        ),
      )

  -- The counter is none of the four.
  pub store_pairs-counted :
      (id v1 v2 v3 v4 : Bytes) (count : ℕ) (db : Db)
      → get_value r (ctxt_version ++ id) (
          store_pairs r
            (texts_of id v1 v2 v3 v4)
            (set_value r (ctxt_version ++ id) (decimal count) db))
        ≡ some (decimal count)
  unfolding last_value wrap_id header_id data_id root_version_id same set_value
  store_pairs-counted id v1 v2 v3 v4 count db =
      let key : Bytes = ctxt_version ++ id in
      let kvs : List (Bytes × Bytes) = texts_of id v1 v2 v3 v4 in
      let raised : Db = set_value r key (decimal count) db in
      get_value_of key (decimal count) (store_pairs r kvs raised)
        (get-store_pairs r key kvs raised
          ∙ get-set db key key (decimal count)
          ∙ rw (same_refl id) refl)
        (length-decimal_some count)

  -- The server accepts the four texts when the last is the current root key and the counter of the
  -- ciphertext can be raised.
  pub upload_accepted :
      (id v1 v2 v3 v4 v : Bytes) (db : Db)
      → IsWord underscore id
      → get_value r (ctxt_version ++ id) db ≡ some v
      → atoi v + 1 < 1000000000
      → setall_values r
          (some v4)
          (wrap_id id ∷ v1 ∷ header_id id ∷ v2 ∷ data_id id ∷ v3 ∷ root_version_id id ∷ v4 ∷ [])
          db
        ≡ ok (
          true,
          store_pairs r
              (texts_of id v1 v2 v3 v4)
              (set_value r (ctxt_version ++ id) (decimal (atoi v + 1)) db),
        )
  unfolding pairs
  upload_accepted id v1 v2 v3 v4 v db h counted small =
      setall_values-accepts r _ (root_version_id id) v4 id v db (found_root id v1 v2 v3 v4)
        (suffix_of id h) counted small
