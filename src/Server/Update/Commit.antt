-- ===== src/Server/Update/Commit.antt =====
-- What one commit of an update stores, and what it means for another ciphertext.
use quicke_r.Prelude.{
  ℕ, ◌+◌, ◌≤◌, length, ◌≡◌, sym, ap, ◌∙◌, ◌⊎◌, inl, inr, Bool, true, false, some, List, [], ◌∷◌,
  Bytes, same, same→eq, Bool-cases, arith,
}
use quicke_r.Memory.{Run, ok, or_fault}
use quicke_r.Memory.Binds.{bind_ok, or_fault_ok}
use quicke_r.Text.Int.{print_int, atoi}
use quicke_r.Server.Redis.{Redis}
use quicke_r.Server.Values.{get_value, set_value, print_version, store_pairs}
use quicke_r.Server.Values.Stores.{Spares, get_value-get}
use quicke_r.Server.Update.{Request, Snapshot, Recoded, write_phase}

-- The pairs that an update stores before the counter.
abbrev pub written : Request → Recoded → List (Bytes × Bytes)
written q c =
    (q.wrap_id, q.new_wrap) ∷ (q.header_id, c.new_header) ∷ (q.data_id, c.new_ciphertext) ∷ []

-- A commit that raises the counter at a key and stores the pairs is tidy for a ciphertext's version,
-- header and data keys: no pair is for the version key, and either the counter is the version key
-- or nothing of the ciphertext is stored.
pub record Others (version header content counter : Bytes) (kvs : List (Bytes × Bytes))
    : Type 0 where
  pub not_version : same counter version ≡ false
  pub not_header : same counter header ≡ false
  pub not_content : same counter content ≡ false
  pub spares_header : Spares header kvs
  pub spares_content : Spares content kvs

pub record Tidy (version header content counter : Bytes) (kvs : List (Bytes × Bytes)) : Type 0 where
  pub spares_version : Spares version kvs
  pub owner : (same counter version ≡ true) ⊎ Others version header content counter kvs

module _ (r : Redis) where
  open r use {Db, get, set, get-set}

  -- What a write phase that returned 0 has found and stored.
  pub record Wrote (q : Request) (s : Snapshot) (c : Recoded) (db db' : Db) : Type 0 where
    pub counter : Bytes
    pub counted : get db q.version_id ≡ some counter
    pub before : s.version ≡ some counter
    pub is : db' ≡ set (store_pairs r (written q c) db) q.version_id (print_int (atoi counter + 1))
    pub nine : length (print_int (atoi counter + 1)) ≤ 9

  is_set :
      (n : ℕ) (next v : Bytes) (old db' : Db)
      → print_version n ≡ ok next
      → ◌≡◌ {A = Run (Bool × Db)} (ok (true, set old v next)) (ok (true, db'))
      → db' ≡ set old v (print_int n)
  unfolding print_version
  is_set n next v old db' printed last = ground arith

  is_nine : (n : ℕ) (next : Bytes) → print_version n ≡ ok next → length (print_int n) ≤ 9
  unfolding print_version
  is_nine n next printed = ground (arith, printed)

  pub write_phase-Wrote :
      (q : Request) (s : Snapshot) (c : Recoded) (db db' : Db)
      → write_phase r q s (some c) db ≡ ok (true, db')
      → Wrote q s c db db'
  unfolding write_phase store_pairs set_value print_version
  write_phase-Wrote q s c db db' h =
      let (after, found, rest) = bind_ok (or_fault (get_value r q.version_id db)) _ h in
      let (before, kept, rest2) = bind_ok (or_fault s.version) _ rest in
      let counted =
        get_value-get r q.version_id after db (or_fault_ok (get_value r q.version_id db) found) in
      elim (Bool-cases (same after before)) [
        | inr differs ↦ absurd (ground (arith, differs, rest2))
        | inl agrees ↦
            let (next, printed, last) =
              bind_ok (print_version (atoi after + 1)) _ (rw agrees at rest2) in
            record {
              counter = after;
              counted = counted;
              before = or_fault_ok s.version kept ∙ ap some (sym (same→eq after before agrees));
              is =
                  is_set (atoi after + 1) next q.version_id (store_pairs r (written q c) db) db'
                    printed last;
              nine = is_nine (atoi after + 1) next printed;
            }
      ]
