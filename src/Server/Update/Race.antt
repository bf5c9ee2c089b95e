-- ===== src/Server/Update/Race.antt =====
-- No update is lost: what up_update stores was computed from what still stands in the database. The
-- commits of other threads between its two critical sections are steps.
pub mod Commits
use quicke_r.Prelude.{
  ℕ, suc, ◌+◌, ◌≤◌, ◌<◌, length, ltb, ltb→lt, Bool-cases, ◌≡◌, refl, sym, ap, ◌∙◌, ◌⊎◌, inl, inr,
  true, Option, some, List, ◌++◌, Bytes, same, same→eq, if◌then◌else◌, arith,
}
use quicke_r.Memory.{Run, ok}
use quicke_r.Text.Decimal.{decimal, decimal-injective}
use quicke_r.Text.Int.{print_int, print_int-decimal, atoi, atoi-decimal}
use quicke_r.Text.Width.{length-decimal_long}
use quicke_r.Server.Redis.{Redis}
use quicke_r.Server.Values.{pairs, find_root, key_suffix, ctxt_version, store_pairs, setall_values}
use quicke_r.Server.Values.Stores.{
  last_value, last_value-spared, get-store_pairs, get_value-get, Committed, setall_values-Committed,
}
use quicke_r.Server.Update.{Request, Snapshot, Recoded, read_phase, write_phase}
use quicke_r.Server.Update.Commit.{written, Tidy, Wrote, write_phase-Wrote}
pub use quicke_r.Server.Update.Race.Commits.{Step, setall, update, Steps, done, more}
use quicke_r.Server.Update.Race.Commits.{Kept, step_lem}

module _ (r : Redis) where
  open r use {Db, get}

  module _ (version header content : Bytes) where
    -- Over any commits the counter rises, and where it does not, nothing of the ciphertext changes.
    record Risen (n : ℕ) (db db' : Db) : Type 0 where
      by : ℕ
      reads : get db' version ≡ some (decimal (n + by))
      kept : by ≡ 0 → (get db' header ≡ get db header) × (get db' content ≡ get db content)

    Steps-Risen :
        {db db' : Db} (n : ℕ)
        → Steps r version header content db db'
        → n < 1000000000
        → get db version ≡ some (decimal n)
        → Risen n db db'
    Steps-Risen n done small at =
        let zero_more : n + 0 ≡ n = omega arith in
        record { by = 0; reads = rw zero_more at; kept = λ e. (refl, refl) }
    Steps-Risen n (more {db1} st rest) small at = elim (step_lem r version header content st) [
      | inl raised ↦
          let next : raised.text ≡ decimal (n + 1) = raised.next n small at in
          let below : n + 1 < 1000000000 =
            ground (arith, ap length next, raised.short, length-decimal_long (n + 1) 9) in
          let later = Steps-Risen (n + 1) rest below (raised.reads ∙ ap some next) in
          let count : n + suc later.by ≡ n + 1 + later.by = omega arith in
          record {
            by = suc later.by;
            reads = rw count later.reads;
            kept = λ e. absurd (omega arith);
          }
      | inr kept ↦
          let later = Steps-Risen n rest small (kept.0 ∙ at) in
          record {
            by = later.by;
            reads = later.reads;
            kept = λ e. ((later.kept e).0 ∙ kept.1, (later.kept e).1 ∙ kept.2);
          }
    ]

    -- Over any commits the ciphertext stays as it is, or its counter ends in at most nine characters.
    abbrev Shortened : Db → Type 0
    Shortened db = (text : Bytes) × (get db version ≡ some text) × (length text ≤ 9)

    Steps-Kept :
        {db db' : Db}
        → Steps r version header content db db'
        → Kept r version header content db db' ⊎ Shortened db'
    Steps-Kept done = inl (refl, refl, refl)
    Steps-Kept (more st rest) = elim (Steps-Kept rest) [
      | inr short ↦ inr short
      | inl after ↦ elim (step_lem r version header content st) [
        | inl raised ↦ inr (raised.text, after.0 ∙ raised.reads, raised.short)
        | inr kept ↦ inl (after.0 ∙ kept.0, after.1 ∙ kept.1, after.2 ∙ kept.2)
      ]
    ]

  -- When the write phase of an update stores, whatever tidy commits other threads made since its
  -- read phase, header and ciphertext still stand as the read phase found them, provided that the
  -- version counter was a printed number.
  pub write_phase-loses-none :
      (q : Request) (c : Recoded) (db db1 db2 : Db) (n : ℕ)
      → get db q.version_id ≡ some (decimal n)
      → Steps r q.version_id q.header_id q.data_id db db1
      → write_phase r q (read_phase r q db) (some c) db1 ≡ ok (true, db2)
      → (get db1 q.header_id ≡ get db q.header_id) × (get db1 q.data_id ≡ get db q.data_id)
  unfolding read_phase
  write_phase-loses-none q c db db1 db2 n at steps run =
      let w = write_phase-Wrote r q (read_phase r q db) c db1 db2 run in
      let first : get db q.version_id ≡ some w.counter =
        get_value-get r q.version_id w.counter db w.before in
      let same_counter : get db1 q.version_id ≡ some (decimal n) = w.counted ∙ sym first ∙ at in
      elim (Bool-cases (ltb n 1000000000)) [
        | inl small ↦
            let risen =
              Steps-Risen q.version_id q.header_id q.data_id n steps (ltb→lt n _ small) at in
            let equal : some (decimal n) ≡ some (decimal (n + risen.by)) =
              sym same_counter ∙ risen.reads in
            let printed : decimal n ≡ decimal (n + risen.by) = cc in
            risen.kept (omega (arith, decimal-injective n (n + risen.by) printed))
        | inr large ↦ elim (Steps-Kept q.version_id q.header_id q.data_id steps) [
          | inl kept ↦ (kept.1, kept.2)
          | inr short ↦
              let equal : some short.0 ≡ some (decimal n) = sym short.1 ∙ same_counter in
              let is : short.0 ≡ decimal n = cc in
              absurd (ground (arith, large, ap length is, short.2, length-decimal_long n 9))
        ]
      ]
