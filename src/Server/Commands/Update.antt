-- ===== src/Server/Commands/Update.antt =====
-- UP_UPDATE of the command loop.
use quicke_r.Prelude.{ℕ, ◌≡◌, refl, true, some, [], ◌∷◌, Bytes, codes, same}
use quicke_r.Memory.{ok}
use quicke_r.Crypto.Evp.{Evp}
use quicke_r.Nested.Layout.{CtHatDataEn}
use quicke_r.Server.Redis.{Redis}
use quicke_r.Server.Update.{Base64, Request, up_update}
use quicke_r.Server.Commands.{State, on_update, known, run_command}

module _ (r : Redis) (e : Evp) (b : Base64) (drawn_iv : Bytes) (hat2 : CtHatDataEn)
    (alloc : ℕ → Bytes) where
  -- An update that stored has a result of no bytes.
  pub run_command-update :
      (q : Request) (s : State r) (db : r.Db)
      → up_update r e b drawn_iv hat2 alloc q s.db ≡ ok (true, db)
      → run_command r e b drawn_iv hat2 alloc
          (codes "UP_UPDATE"
            ∷ q.wrap_id
            ∷ q.header_id
            ∷ q.data_id
            ∷ q.version_id
            ∷ q.new_wrap
            ∷ q.delta
            ∷ [])
          s
        ≡ ok (some ([], record s { db = db }))
  unfolding run_command on_update known same
  run_command-update q s db h = rw h refl
