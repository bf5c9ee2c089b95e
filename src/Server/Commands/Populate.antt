-- ===== src/Server/Commands/Populate.antt =====
-- SAVEDATA and POPULATE of the command loop, and what reads back.
use quicke_r.Prelude.{
  ℕ, ◌≡◌, refl, ◌∙◌, true, false, some, List, [], ◌∷◌, Bytes, codes, same, All, Bool-cases, inl,
  inr, ◌⊎◌, if◌then◌else◌,
}
use quicke_r.Memory.{ok}
use quicke_r.Crypto.Evp.{Evp}
use quicke_r.Nested.Layout.{CtHatDataEn}
use quicke_r.Server.Redis.{Redis}
use quicke_r.Server.Values.{set_value}
use quicke_r.Server.Update.{Base64}
use quicke_r.Server.Commands.{State, on_savedata, on_populate, populate_keys, known, run_command}

module _ (r : Redis) (e : Evp) (b : Base64) (drawn_iv : Bytes) (hat2 : CtHatDataEn)
    (alloc : ℕ → Bytes) where
  pub run_command-savedata :
      (value : Bytes) (s : State r)
      → run_command r e b drawn_iv hat2 alloc (codes "SAVEDATA" ∷ value ∷ []) s
        ≡ ok (some (codes "0", record s { savebuf = value }))
  unfolding run_command on_savedata known same
  run_command-savedata value s = refl

  pub run_command-populate :
      (names : List Bytes) (s : State r)
      → run_command r e b drawn_iv hat2 alloc (codes "POPULATE" ∷ names) s
        ≡ ok (some (codes "0", record s { db = populate_keys r names s.savebuf s.db }))
  unfolding run_command on_populate known same
  run_command-populate names s = refl

module _ (r : Redis) where
  open r use {get, set, get-set}

  -- A key of the list has the value then, and any other what it had.
  pub populate_keys-persists :
      (x : Bytes) (names : List Bytes) (value : Bytes) (db : r.Db)
      → get db x ≡ some value
      → get (populate_keys r names value db) x ≡ some value
  unfolding populate_keys set_value
  populate_keys-persists x [] value db h = h
  populate_keys-persists x (name ∷ names) value db h =
      populate_keys-persists x names value (set db name value)
        (get-set db name x value ∙ either (Bool-cases (same name x)))
    where
      either :
          (same name x ≡ true) ⊎ (same name x ≡ false)
          → (if same name x then some value else get db x) ≡ some value
      either (inl own) = rw own refl
      either (inr other) = rw (other, h) refl

  pub populate_keys-spares :
      (x : Bytes) (names : List Bytes) (value : Bytes) (db : r.Db)
      → All (λ name. same name x ≡ false) names
      → get (populate_keys r names value db) x ≡ get db x
  unfolding populate_keys set_value
  populate_keys-spares x [] value db h = refl
  populate_keys-spares x (name ∷ names) value db h =
      populate_keys-spares x names value (set db name value) h.1
      ∙ get-set db name x value
      ∙ rw h.0 refl
