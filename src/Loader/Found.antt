-- ===== src/Loader/Found.antt =====
-- What a server holds of a key after the loader.
use quicke_r.Prelude.{
  ℕ, suc, ◌+◌, ◌*◌, ◌%◌, ◌≤◌, ◌<◌, ◌≡◌, ◌==◌, refl, sym, ap, subst, ◌∙◌, false, some, List, [], ◌∷◌,
  ◌++◌, Bytes, codes, length, same, same_refl, All, Bool-cases, inl, inr, arith,
}
use native.Mathlib.Nat.{mod-le}
use quicke_r.Memory.{ok}
use quicke_r.Crypto.Evp.{Evp}
use quicke_r.Nested.Layout.{CtHatDataEn}
use quicke_r.Server.Redis.{Redis}
use quicke_r.Server.Values.{set_value}
use quicke_r.Server.Values.Found.{Found}
use quicke_r.Server.Update.{Base64}
use quicke_r.Server.Commands.{populate_keys}
use quicke_r.Server.Commands.Populate.{populate_keys-persists, populate_keys-spares}
use quicke_r.Actions.{wrap_id, header_id, data_id, root_version_id, ctxt_version_id}
use quicke_r.Wire.{Network, Ends, peer}
use quicke_r.Wire.Tokens.{IsToken, avoids, avoids-IsToken}
use quicke_r.Wire.Stores.{HasRoom}
use quicke_r.Wire.Accepted.{get_value_of}
use quicke_r.Machines.Share.{share, times, own_share}
use quicke_r.Loader.{types_of, key_name, listbuf_size, populate_types}
use quicke_r.Loader.Lists.{prefixed}
use quicke_r.Loader.Populated.{loaded, populate_types-loaded}

module _ (r : Redis) where
  open r use {Db, get, set, get-set}

  -- A key of the share gets the value.
  stored :
      (prefix value : Bytes) (j : ℕ) (js : List ℕ) (db : Db)
      → 1 ≤ times j js
      → get (populate_keys r (prefixed prefix js) value db) (prefix ++ key_name j) ≡ some value
  unfolding populate_keys set_value
  stored prefix value j [] db h = absurd (omega arith)
  stored prefix value j (k ∷ js) db h = elim (Bool-cases (k == j)) [
    | inl own ↦
        let is : k ≡ j = ground (arith, own) in
        let x : Bytes = prefix ++ key_name j in
        let now : get (set db (prefix ++ key_name k) value) x ≡ some value =
          ap (λ i. get (set db (prefix ++ key_name i) value) x) is
          ∙ get-set db x x value
          ∙ rw (same_refl x) refl in
        populate_keys-persists r x (prefixed prefix js) value (set db (prefix ++ key_name k) value)
          now
    | inr other ↦
        stored prefix value j js (set db (prefix ++ key_name k) value) (ground (arith, other, h))
  ]

  -- Keys behind another prefix.
  prefixed_apart :
      (prefix x : Bytes) (js : List ℕ)
      → ((j : ℕ) → same (prefix ++ key_name j) x ≡ false)
      → All (λ name. same name x ≡ false) (prefixed prefix js)
  prefixed_apart prefix x [] h = tt
  prefixed_apart prefix x (j ∷ js) h = (h j, prefixed_apart prefix x js h)

  spared :
      (prefix value x : Bytes) (js : List ℕ) (db : Db)
      → ((j : ℕ) → same (prefix ++ key_name j) x ≡ false)
      → get (populate_keys r (prefixed prefix js) value db) x ≡ get db x
  spared prefix value x js db h =
      populate_keys-spares r x (prefixed prefix js) value db (prefixed_apart prefix x js h)

  loaded_values :
      (v1 v2 v3 v4 : Bytes) (j : ℕ) (js : List ℕ) (db : Db)
      → 1 ≤ times j js
      → (let after = loaded r (types_of v1 v2 v3 v4) js db in
          (get after (root_version_id (key_name j)) ≡ some v1)
          × (get after (ctxt_version_id (key_name j)) ≡ some (codes "0"))
          × (get after (wrap_id (key_name j)) ≡ some v2)
          × (get after (header_id (key_name j)) ≡ some v3)
          × (get after (data_id (key_name j)) ≡ some v4))
  unfolding wrap_id header_id data_id root_version_id ctxt_version_id same
  loaded_values v1 v2 v3 v4 j js db h =
      let d1 : Db = populate_keys r (prefixed (codes "root_version_") js) v1 db in
      let d2 : Db = populate_keys r (prefixed (codes "ctxt_version_") js) (codes "0") d1 in
      let d3 : Db = populate_keys r (prefixed (codes "wrap_") js) v2 d2 in
      let d4 : Db = populate_keys r (prefixed (codes "header_") js) v3 d3 in
      let data_spares : (x : Bytes)
          → ((k : ℕ) → same (codes "data_" ++ key_name k) x ≡ false)
          → get (populate_keys r (prefixed (codes "data_") js) v4 d4) x ≡ get d4 x =
        λ x out. spared (codes "data_") v4 x js d4 out in
      let header_spares : (x : Bytes)
          → ((k : ℕ) → same (codes "header_" ++ key_name k) x ≡ false)
          → get d4 x ≡ get d3 x =
        λ x out. spared (codes "header_") v3 x js d3 out in
      let wrap_spares : (x : Bytes)
          → ((k : ℕ) → same (codes "wrap_" ++ key_name k) x ≡ false)
          → get d3 x ≡ get d2 x =
        λ x out. spared (codes "wrap_") v2 x js d2 out in
      let ctxt_spares : (x : Bytes)
          → ((k : ℕ) → same (codes "ctxt_version_" ++ key_name k) x ≡ false)
          → get d2 x ≡ get d1 x =
        λ x out. spared (codes "ctxt_version_") (codes "0") x js d1 out in
      (
        data_spares _ (λ k. refl)
            ∙ header_spares _ (λ k. refl)
            ∙ wrap_spares _ (λ k. refl)
            ∙ ctxt_spares _ (λ k. refl)
            ∙ stored (codes "root_version_") v1 j js db h,
        data_spares _ (λ k. refl)
            ∙ header_spares _ (λ k. refl)
            ∙ wrap_spares _ (λ k. refl)
            ∙ stored (codes "ctxt_version_") (codes "0") j js d1 h,
        data_spares _ (λ k. refl)
            ∙ header_spares _ (λ k. refl)
            ∙ stored (codes "wrap_") v2 j js d2 h,
        data_spares _ (λ k. refl) ∙ stored (codes "header_") v3 j js d3 h,
        stored (codes "data_") v4 j js d4 h,
      )

token_length : (v : Bytes) → IsToken v → 1 ≤ length v
token_length [] h = absurd (h.0.0 refl)
token_length (c ∷ v) h = omega arith

-- The five values of a key.
abbrev pub loaded_pairs : Bytes → Bytes → Bytes → Bytes → Bytes → List (Bytes × Bytes)
loaded_pairs id v1 v2 v3 v4 =
    (root_version_id id, v1)
    ∷ (ctxt_version_id id, codes "0")
    ∷ (wrap_id id, v2)
    ∷ (header_id id, v3)
    ∷ (data_id id, v4)
    ∷ []

module _ (r : Redis) (e : Evp) (b : Base64) (drawn_iv : Bytes) (hat2 : CtHatDataEn)
    (alloc : ℕ → Bytes) (n : Network) where
  -- When the loader has sent its lists to the server of a key, which is the one with the index of the
  -- key modulo the number of servers, the server has the five values of the key. The texts are words,
  -- the lists fit the loader's buffer, and both ends have room for the requests.
  pub populate_types-Found :
      (v1 v2 v3 v4 : Bytes) (k count total j : ℕ) (w : Ends r)
      → All IsToken (v1 ∷ v2 ∷ v3 ∷ v4 ∷ [])
      → All (λ v. length v + 14 ≤ k) (v1 ∷ v2 ∷ v3 ∷ v4 ∷ [])
      → 1 ≤ count
      → j < total
      → 19 * (total + 1) < listbuf_size
      → 19 * (total + 1) + 14 ≤ k
      → HasRoom r w k
      → (after : Ends r) × (populate_types
            (peer r e b drawn_iv hat2 alloc n)
            b
            (types_of v1 v2 v3 v4)
            (j % count)
            count
            total
            w
          ≡ ok after)
        × Found r after.site.state.db (loaded_pairs (key_name j) v1 v2 v3 v4)
  unfolding avoids
  populate_types-Found v1 v2 v3 v4 k count total j w tokens sizes some_server below small enough
        room =
      let js : List ℕ = share (suc total) (j % count) count total in
      let (after, ran, db_is, room2) =
        populate_types-loaded r e b drawn_iv hat2 alloc n (types_of v1 v2 v3 v4) k (j % count) count
          total w
          (
            (avoids-IsToken _ _ refl, tokens.0, omega arith, sizes.0),
            (
              (avoids-IsToken _ _ refl, avoids-IsToken _ _ refl, omega arith, omega arith),
              (
                (avoids-IsToken _ _ refl, tokens.1.0, omega arith, sizes.1.0),
                (
                  (avoids-IsToken _ _ refl, tokens.1.1.0, omega arith, sizes.1.1.0),
                  ((avoids-IsToken _ _ refl, tokens.1.1.1.0, omega arith, sizes.1.1.1.0), tt),
                ),
              ),
            ),
          )
          some_server (omega (arith, mod-le j count, below)) small enough room in
      let hit : 1 ≤ times j js = omega (arith, own_share count total j some_server below) in
      let g = loaded_values r v1 v2 v3 v4 j js w.site.state.db hit in
      let id : Bytes = key_name j in
      (
        after,
        ran,
        subst (λ db. Found r db (loaded_pairs id v1 v2 v3 v4)) (sym db_is)
            (
              get_value_of r (root_version_id id) v1 _ g.0 (token_length v1 tokens.0),
              (
                get_value_of r (ctxt_version_id id) (codes "0") _ g.1 (omega arith),
                (
                  get_value_of r (wrap_id id) v2 _ g.2 (token_length v2 tokens.1.0),
                  (
                    get_value_of r (header_id id) v3 _ g.3 (token_length v3 tokens.1.1.0),
                    (get_value_of r (data_id id) v4 _ g.4 (token_length v4 tokens.1.1.1.0), tt),
                  ),
                ),
              ),
            ),
      )
