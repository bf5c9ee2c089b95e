-- ===== src/Server/Commands/Batch.antt =====
-- SETALL and GETALL of the command loop.
use quicke_r.Prelude.{ℕ, ◌≡◌, refl, Bool, some, List, [], ◌∷◌, ◌++◌, Bytes, codes, same}
use quicke_r.Memory.{ok}
use quicke_r.Crypto.Evp.{Evp}
use quicke_r.Nested.Layout.{CtHatDataEn}
use quicke_r.Server.Redis.{Redis}
use quicke_r.Server.Values.{getall_values, setall_values}
use quicke_r.Server.Update.{Base64}
use quicke_r.Server.Commands.{
  current_root_key, State, flag, on_getall, on_setall, known, run_command,
}

module _ (r : Redis) (e : Evp) (b : Base64) (drawn_iv : Bytes) (hat2 : CtHatDataEn)
    (alloc : ℕ → Bytes) where
  pub run_command-setall :
      (words : List Bytes) (s : State r) (stored : Bool) (db : r.Db)
      → setall_values r (current_root_key r s) words s.db ≡ ok (stored, db)
      → run_command r e b drawn_iv hat2 alloc (codes "SETALL" ∷ words) s
        ≡ ok (some (flag stored, record s { db = db }))
  unfolding run_command on_setall known same
  run_command-setall words s stored db h = rw h refl

  pub run_command-getall :
      (key : Bytes) (keys : List Bytes) (s : State r)
      → run_command r e b drawn_iv hat2 alloc (codes "GETALL" ∷ key ∷ keys) s
        ≡ ok (some (getall_values r (key ∷ keys) s.db ++ (0 ∷ []), s))
  unfolding run_command on_getall known same
  run_command-getall key keys s = refl
