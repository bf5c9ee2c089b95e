-- ===== src/Server/Update/Race/Commits.antt =====
-- The commits of other threads between the two critical sections of up_update, and what each of them
-- does to a ciphertext.
use quicke_r.Prelude.{
  ℕ, ◌+◌, ◌≤◌, ◌<◌, length, ◌≡◌, refl, sym, ap, ◌∙◌, ◌⊎◌, inl, inr, true, Option, some, List, ◌++◌,
  Bytes, same, same→eq, if◌then◌else◌, arith,
}
use quicke_r.Memory.{Run, ok}
use quicke_r.Text.Decimal.{decimal}
use quicke_r.Text.Int.{print_int, print_int-decimal, atoi, atoi-decimal}
use quicke_r.Server.Redis.{Redis}
use quicke_r.Server.Values.{pairs, find_root, key_suffix, ctxt_version, store_pairs, setall_values}
use quicke_r.Server.Values.Stores.{
  last_value, last_value-spared, get-store_pairs, Committed, setall_values-Committed,
}
use quicke_r.Server.Update.{Request, Snapshot, Recoded, write_phase}
use quicke_r.Server.Update.Commit.{written, Tidy, Wrote, write_phase-Wrote}

module _ (r : Redis) where
  open r use {Db, get, set, get-set}

  module _ (version header content : Bytes) where
    -- A commit between the two critical sections: a SETALL or an UP_UPDATE that stored, tidy for the
    -- ciphertext.
    pub data Step : Db → Db → Type 0 where
      setall :
          {db db' : Db} (root : Option Bytes) (tokens : List Bytes) (name value suffix : Bytes)
          → setall_values r root tokens db ≡ ok (true, db')
          → find_root (pairs tokens) ≡ some (name, value)
          → key_suffix name ≡ ok suffix
          → Tidy version header content (ctxt_version ++ suffix) (pairs tokens)
          → Step db db'
      update :
          {db db' : Db} (q : Request) (s : Snapshot) (c : Recoded)
          → write_phase r q s (some c) db ≡ ok (true, db')
          → Tidy version header content q.version_id (written q c)
          → Step db db'

    pub data Steps : Db → Db → Type 0 where
      done : {db : Db} → Steps db db
      more : {db db1 db2 : Db} → Step db db1 → Steps db1 db2 → Steps db db2

    -- After a commit the counter is one higher, or counter, header and content are as they were.
    abbrev pub Kept : Db → Db → Type 0
    Kept db db' =
        (get db' version ≡ get db version)
        × (get db' header ≡ get db header)
        × (get db' content ≡ get db content)

    -- The counter has a text of at most nine characters, one higher where it was a printed number.
    pub record Raised (db db' : Db) : Type 0 where
      pub text : Bytes
      pub reads : get db' version ≡ some text
      pub short : length text ≤ 9
      pub next :
          (n : ℕ) → n < 1000000000 → get db version ≡ some (decimal n) → text ≡ decimal (n + 1)

    -- The commit's own counter.
    counter-Raised :
        (counter value : Bytes) (db db' : Db)
        → same counter version ≡ true
        → get db counter ≡ some value
        → length (print_int (atoi value + 1)) ≤ 9
        → get db' version ≡ some (print_int (atoi value + 1))
        → Raised db db'
    counter-Raised counter value db db' own counted nine now = record {
      text = print_int (atoi value + 1);
      reads = now;
      short = nine;
      next = λ n small at.
          let is : counter ≡ version = same→eq counter version own in
          let is_value : some value ≡ some (decimal n) = sym counted ∙ ap (get db) is ∙ at in
          let same_value : value ≡ decimal n = cc in
          rw (same_value, atoi-decimal n (omega (arith, small)))
            (print_int-decimal (n + 1) (omega (arith, small)));
    }

    setall_step :
        {db db' : Db} (root : Option Bytes) (tokens : List Bytes)
        (c : Committed r root tokens db db')
        → Tidy version header content (ctxt_version ++ c.suffix) (pairs tokens)
        → Raised db db' ⊎ Kept db db'
    setall_step {db} {db'} root tokens c t = elim t.owner [
      | inl own ↦ inl (
          counter-Raised (ctxt_version ++ c.suffix) c.counter db db' own c.counted c.nine (
            rw
              (
                c.reads version,
                last_value-spared version (pairs tokens) (counted_or version) t.spares_version,
                own,
              )
              refl))
      | inr o ↦ inr (
        rw
            (
              c.reads version,
              last_value-spared version (pairs tokens) (counted_or version) t.spares_version,
              o.not_version,
            )
            refl,
        rw
            (
              c.reads header,
              last_value-spared header (pairs tokens) (counted_or header) o.spares_header,
              o.not_header,
            )
            refl,
        rw
            (
              c.reads content,
              last_value-spared content (pairs tokens) (counted_or content) o.spares_content,
              o.not_content,
            )
            refl,
      )
    ]
      where
        counted_or : Bytes → Option Bytes
        counted_or j =
            if same (ctxt_version ++ c.suffix) j
            then some (print_int (atoi c.counter + 1))
            else get db j

    commit_reads :
        (q : Request) (s : Snapshot) (c : Recoded) (db db' : Db) (w : Wrote r q s c db db')
        (j : Bytes)
        → get db' j ≡ (
            if same q.version_id j
            then some (print_int (atoi w.counter + 1))
            else last_value j (written q c) (get db j))
    commit_reads q s c db db' w j =
        rw
          (
            w.is,
            get-set (store_pairs r (written q c) db) q.version_id j
                (print_int (atoi w.counter + 1)),
            get-store_pairs r j (written q c) db,
          )
          refl

    update_step :
        (q : Request) (s : Snapshot) (c : Recoded) (db db' : Db)
        → Wrote r q s c db db'
        → Tidy version header content q.version_id (written q c)
        → Raised db db' ⊎ Kept db db'
    update_step q s c db db' w t =
        let reads = commit_reads q s c db db' w in
        elim t.owner [
          | inl own ↦ inl (
              counter-Raised q.version_id w.counter db db' own w.counted w.nine
                (rw (reads version, own) refl))
          | inr o ↦ inr (
            rw (reads version, o.not_version)
                (last_value-spared version (written q c) (get db version) t.spares_version),
            rw (reads header, o.not_header)
                (last_value-spared header (written q c) (get db header) o.spares_header),
            rw (reads content, o.not_content)
                (last_value-spared content (written q c) (get db content) o.spares_content),
          )
        ]

    same_root :
        (name name' value value' : Bytes)
        → ◌≡◌ {A = Option (Bytes × Bytes)} (some (name, value)) (some (name', value'))
        → name ≡ name'
    same_root name name' value value' h = cc

    pub step_lem : {db db' : Db} → Step db db' → Raised db db' ⊎ Kept db db'
    step_lem {db} {db'} (setall root tokens name value suffix run found suffixed t) =
        let c = setall_values-Committed r root tokens db db' run in
        let same_name : name ≡ c.name = same_root name c.name value c.value (sym found ∙ c.found) in
        let same_ok : ◌≡◌ {A = Run Bytes} (ok suffix) (ok c.suffix) =
          sym suffixed ∙ ap key_suffix same_name ∙ c.suffixed in
        let same_suffix : suffix ≡ c.suffix = cc in setall_step root tokens c (rw same_suffix at t)
    step_lem {db} {db'} (update q s c run t) =
        update_step q s c db db' (write_phase-Wrote r q s c db db' run) t
