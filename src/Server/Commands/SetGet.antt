-- ===== src/Server/Commands/SetGet.antt =====
-- SET and GET of the command loop.
use quicke_r.Prelude.{
  ℕ, ◌≡◌, refl, false, some, [], ◌∷◌, Bytes, codes, length, same, same_refl, ◌==◌,
}
use quicke_r.Memory.{ok}
use quicke_r.Crypto.Evp.{Evp}
use quicke_r.Nested.Layout.{CtHatDataEn}
use quicke_r.Server.Redis.{Redis}
use quicke_r.Server.Values.{get_value, set_value}
use quicke_r.Server.Update.{Base64}
use quicke_r.Server.Commands.{State, on_get, on_set, known, value_or_nil, run_command}

module _ (r : Redis) (e : Evp) (b : Base64) (drawn_iv : Bytes) (hat2 : CtHatDataEn)
    (alloc : ℕ → Bytes) where
  open r use {get, set, get-set}

  get_value-set_value :
      (key value : Bytes) (db : r.Db)
      → (length value == 0) ≡ false
      → get_value r key (set_value r key value db) ≡ some value
  unfolding get_value set_value
  get_value-set_value key value db h =
      let found : get (set db key value) key ≡ some value =
        rw (get-set db key key value, same_refl key) refl in
      rw (get_value, found, h) refl

  -- The command SET stores and answers 0, and the command GET for the same key then finds the value
  -- that was stored, if it is not empty, and changes nothing.
  pub run_command-set_get :
      (key value : Bytes) (s : State r)
      → (length value == 0) ≡ false
      → (s' : State r) × (run_command r e b drawn_iv hat2 alloc (codes "SET" ∷ key ∷ value ∷ []) s
          ≡ ok (some (codes "0", s')))
        × (run_command r e b drawn_iv hat2 alloc (codes "GET" ∷ key ∷ []) s'
            ≡ ok (some (value, s')))
  unfolding run_command on_get on_set known same value_or_nil
  run_command-set_get key value s h = (
    record s { db = set_value r key value s.db },
    refl,
    rw (get_value-set_value key value s.db h) refl,
  )
