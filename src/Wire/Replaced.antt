-- ===== src/Wire/Replaced.antt =====
-- What an update and an upload replace in the store, and what they leave.
use quicke_r.Server.Commands.{current_root_key}
use quicke_r.Prelude.{
  ◌+◌, ◌≤◌, ◌≡◌, refl, ◌∙◌, some, false, ◌++◌, Bytes, length, same, same_refl, if◌then◌else◌,
}
use quicke_r.Text.Decimal.{decimal}
use quicke_r.Text.Int.{atoi}
use quicke_r.Text.Width.{length-decimal_some}
use quicke_r.Server.Redis.{Redis}
use quicke_r.Server.Values.{get_value, ctxt_version, store_pairs, set_value}
use quicke_r.Server.Values.Found.{Found}
use quicke_r.Server.Values.Stores.{last_value, get-store_pairs}
use quicke_r.Server.Update.{Request, Recoded}
use quicke_r.Server.Update.Commit.{written}
use quicke_r.Server.Update.Stores.{updated_store}
use quicke_r.Actions.{wrap_id, header_id, data_id, root_version_id, ctxt_version_id}
use quicke_r.Wire.{Ends}
use quicke_r.Wire.Accepted.{texts_of, get_value_of}

-- A key under which nothing of a ciphertext is stored.
pub record Foreign (id j : Bytes) : Type 0 where
  pub not_wrap : same (wrap_id id) j ≡ false
  pub not_header : same (header_id id) j ≡ false
  pub not_data : same (data_id id) j ≡ false
  pub not_root : same (root_version_id id) j ≡ false
  pub not_counter : same (ctxt_version_id id) j ≡ false

-- The keys of another ciphertext are so.
pub keys-Foreign :
    (id other : Bytes)
    → same id other ≡ false
    → Foreign id (wrap_id other)
      × Foreign id (header_id other)
      × Foreign id (data_id other)
      × Foreign id (root_version_id other)
      × Foreign id (ctxt_version_id other)
unfolding wrap_id header_id data_id root_version_id ctxt_version_id same
keys-Foreign id other h = (
  record { not_wrap = h; not_header = refl; not_data = refl; not_root = refl; not_counter = refl },
  record { not_wrap = refl; not_header = h; not_data = refl; not_root = refl; not_counter = refl },
  record { not_wrap = refl; not_header = refl; not_data = h; not_root = refl; not_counter = refl },
  record { not_wrap = refl; not_header = refl; not_data = refl; not_root = h; not_counter = refl },
  record { not_wrap = refl; not_header = refl; not_data = refl; not_root = refl; not_counter = h },
)

-- The request that an update of `id` is for the server.
abbrev pub request_of : Bytes → Bytes → Bytes → Request
request_of id new_wrap delta = record {
  wrap_id = wrap_id id;
  header_id = header_id id;
  data_id = data_id id;
  version_id = ctxt_version_id id;
  new_wrap = new_wrap;
  delta = delta;
}

module _ (r : Redis) where
  open r use {Db, get, set, get-set}

  pub get_value-same :
      (key : Bytes) (db db' : Db)
      → get db' key ≡ get db key
      → get_value r key db' ≡ get_value r key db
  unfolding get_value
  get_value-same key db db' h = rw (get_value, h) refl

  -- What reads back after an update.
  reads_back :
      (q : Request) (c : Recoded) (counter : Bytes) (db : Db) (j : Bytes)
      → get (updated_store r q c counter db) j ≡ (
          if same q.version_id j
          then some (decimal (atoi counter + 1))
          else last_value j (written q c) (get db j))
  unfolding set_value
  reads_back q c counter db j =
      rw
        (
          get-set (store_pairs r (written q c) db) q.version_id j (decimal (atoi counter + 1)),
          get-store_pairs r j (written q c) db,
        )
        refl

  -- An update replaces the key, the header and the data of its ciphertext, leaves the root key, and
  -- raises the counter.
  pub updated_store-Found :
      (id v1 v2 v3 v4 new_wrap delta new_header new_ct counter : Bytes) (db : Db)
      → Found r db (texts_of id v1 v2 v3 v4)
      → 1 ≤ length new_wrap
      → 1 ≤ length new_header
      → 1 ≤ length new_ct
      → (let db' =
            updated_store r
              (request_of id new_wrap delta)
              (record { new_header = new_header; new_ciphertext = new_ct })
              counter
              db in
          Found r db' (texts_of id new_wrap new_header new_ct v4)
          × (get_value r (ctxt_version ++ id) db' ≡ some (decimal (atoi counter + 1))))
  unfolding last_value wrap_id header_id data_id root_version_id ctxt_version_id same
  updated_store-Found id v1 v2 v3 v4 new_wrap delta new_header new_ct counter db found h1 h2 h3 =
      let q : Request = request_of id new_wrap delta in
      let c : Recoded = record { new_header = new_header; new_ciphertext = new_ct } in
      let db' : Db = updated_store r q c counter db in
      let reads = reads_back q c counter db in
      (
        (
          get_value_of r (wrap_id id) new_wrap db' (reads (wrap_id id) ∙ rw (same_refl id) refl) h1,
          (
            get_value_of r (header_id id) new_header db'
                (reads (header_id id) ∙ rw (same_refl id) refl) h2,
            (
              get_value_of r (data_id id) new_ct db' (reads (data_id id) ∙ rw (same_refl id) refl)
                  h3,
              (
                get_value-same (root_version_id id) db db' (reads (root_version_id id))
                    ∙ found.1.1.1.0,
                tt,
              ),
            ),
          ),
        ),
        get_value_of r (ctxt_version_id id) (decimal (atoi counter + 1)) db'
            (reads (ctxt_version_id id) ∙ rw (same_refl id) refl)
            (length-decimal_some (atoi counter + 1)),
      )

-- The root key and the sizes of both buffers are what they were, and so is every value in the store
-- but those of one ciphertext.
pub record Stays (r : Redis) (id : Bytes) (w after : Ends r) : Type 0 where
  pub root_key : current_root_key r after.site.state ≡ current_root_key r w.site.state
  pub site_size : length after.site.buff ≡ length w.site.buff
  pub client_size : length after.client ≡ length w.client
  pub aside : (j : Bytes) → Foreign id j → r.get after.site.state.db j ≡ r.get w.site.state.db j

pub Stays-refl : {r : Redis} (id : Bytes) (w : Ends r) → Stays r id w w
Stays-refl id w = record {
  root_key = refl;
  site_size = refl;
  client_size = refl;
  aside = λ j h. refl;
}

pub Stays-trans :
    {r : Redis} {id : Bytes} {w1 w2 w3 : Ends r}
    → Stays r id w1 w2
    → Stays r id w2 w3
    → Stays r id w1 w3
Stays-trans h k = record {
  root_key = k.root_key ∙ h.root_key;
  site_size = k.site_size ∙ h.site_size;
  client_size = k.client_size ∙ h.client_size;
  aside = λ j out. k.aside j out ∙ h.aside j out;
}

module _ (r : Redis) where
  open r use {Db, get, set, get-set}

  -- An update and an upload touch nothing else.
  pub updated_store-aside :
      (id new_wrap delta counter : Bytes) (c : Recoded) (db : Db) (j : Bytes)
      → Foreign id j
      → get (updated_store r (request_of id new_wrap delta) c counter db) j ≡ get db j
  unfolding last_value
  updated_store-aside id new_wrap delta counter c db j h =
      reads_back r (request_of id new_wrap delta) c counter db j
      ∙ rw (h.not_counter, h.not_wrap, h.not_header, h.not_data) refl

  pub store_pairs-aside :
      (id v1 v2 v3 v4 counter : Bytes) (db : Db) (j : Bytes)
      → Foreign id j
      → get
          (store_pairs r (texts_of id v1 v2 v3 v4) (set_value r (ctxt_version_id id) counter db))
          j
        ≡ get db j
  unfolding last_value set_value
  store_pairs-aside id v1 v2 v3 v4 counter db j h =
      get-store_pairs r j (texts_of id v1 v2 v3 v4) (set_value r (ctxt_version_id id) counter db)
      ∙ rw
          (
            h.not_root,
            h.not_wrap,
            h.not_header,
            h.not_data,
            get-set db (ctxt_version_id id) j counter,
            h.not_counter,
          )
          refl
