-- ===== src/Server/Update/Stores.antt =====
-- When up_update stores, and what it then stores.
use quicke_r.Prelude.{ℕ, ◌+◌, ◌<◌, ◌≡◌, refl, true, some, Bytes, same_refl}
use quicke_r.Memory.{ok, ◌>>=◌}
use quicke_r.Crypto.Evp.{Evp}
use quicke_r.Text.Decimal.{decimal}
use quicke_r.Text.Int.{atoi}
use quicke_r.Nested.Layout.{CtHatDataEn}
use quicke_r.Server.Redis.{Redis}
use quicke_r.Server.Values.{get_value, set_value, store_pairs}
use quicke_r.Server.Values.Counter.{print_version-fits}
use quicke_r.Server.Update.{
  Base64, Request, Snapshot, Recoded, read_phase, write_phase, recode, up_update,
}
use quicke_r.Server.Update.Commit.{written}

module _ (r : Redis) where
  open r use {Db}

  -- What an update leaves: the three texts and then the counter.
  abbrev pub updated_store : Request → Recoded → Bytes → Db → Db
  updated_store q c counter db =
      set_value r q.version_id (decimal (atoi counter + 1)) (store_pairs r (written q c) db)

  write_phase-stores :
      (q : Request) (s : Snapshot) (c : Recoded) (counter : Bytes) (db : Db)
      → get_value r q.version_id db ≡ some counter
      → s.version ≡ some counter
      → atoi counter + 1 < 1000000000
      → write_phase r q s (some c) db ≡ ok (true, updated_store q c counter db)
  unfolding write_phase store_pairs
  write_phase-stores q s c counter db now before small =
      rw
        (
          write_phase,
          now,
          ◌>>=◌,
          before,
          ◌>>=◌,
          same_refl counter,
          print_version-fits (atoi counter + 1) small,
        )
        refl

  read_before :
      (q : Request) (counter : Bytes) (db : Db)
      → get_value r q.version_id db ≡ some counter
      → (read_phase r q db).version ≡ some counter
  unfolding read_phase
  read_before q counter db h = h

  -- With no other thread in between, an update that recodes stores where the counter is there and
  -- can be raised.
  pub up_update-stores :
      (e : Evp) (b : Base64) (drawn_iv : Bytes) (hat2 : CtHatDataEn) (alloc : ℕ → Bytes)
      (q : Request) (c : Recoded) (counter : Bytes) (db : Db)
      → get_value r q.version_id db ≡ some counter
      → atoi counter + 1 < 1000000000
      → recode e b drawn_iv hat2 alloc q (read_phase r q db) ≡ ok (some c)
      → up_update r e b drawn_iv hat2 alloc q db ≡ ok (true, updated_store q c counter db)
  unfolding up_update
  up_update-stores e b drawn_iv hat2 alloc q c counter db now small made =
      rw (up_update, made, ◌>>=◌)
        (write_phase-stores q (read_phase r q db) c counter db now (read_before q counter db now)
          small)
