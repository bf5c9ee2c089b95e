-- ===== src/Server/Update.antt =====
-- up_update of simple_server.c in its three parts: what it reads under the lock, what it computes
-- without it, and what it stores under the lock again. Other threads run in between.
pub mod Commit
pub mod Race
pub mod Recode
pub mod Stores
use quicke_r.Prelude.{
  none, some, ltb, leb, ℕ, suc, ◌+◌, ◌-◌, ◌^◌, ◌&&◌, Bool, true, false, Option, Bytes, length, same,
  if◌then◌else◌,
}
use quicke_r.Memory.{Run, ok, fault, ◌>>=◌, or_fault, peek}
use quicke_r.Crypto.Evp.{Evp}
use quicke_r.Text.Int.{atoi}
use quicke_r.Nested.Layout.{CtHatDataEn, DeltaToken, hat_bytes, delta_of_bytes}
use quicke_r.Nested.Update.{Reencrypted, ae_reencrypt}
use quicke_r.Server.Redis.{Redis}
use quicke_r.Server.Values.{get_value, set_value, print_version}

-- base64_enc and base64_dec, which are OpenSSL's BIO: `none` is NULL, with a result length that is
-- 0 where `dec_zero` says so, and negative otherwise.
pub record Base64 : Type 0 where
  pub enc : Bytes → Option Bytes
  pub dec : Bytes → Option Bytes
  pub dec_zero : Bytes → Bool

-- The six arguments of the command UP_UPDATE.
pub record Request : Type 0 where
  pub wrap_id : Bytes
  pub header_id : Bytes
  pub data_id : Bytes
  pub version_id : Bytes
  pub new_wrap : Bytes
  pub delta : Bytes

-- What is read in the first critical section; a missing value is NULL.
pub record Snapshot : Type 0 where
  pub version : Option Bytes
  pub header : Option Bytes
  pub ciphertext : Option Bytes

-- The texts to store. Where base64_enc made none of the header, there is a NULL, and storing it is a
-- fault.
pub record Recoded : Type 0 where
  pub new_header : Bytes
  pub new_ciphertext : Bytes

module _ (r : Redis) where
  open r use {Db}

  unfoldable pub read_phase : Request → Db → Snapshot
  unfolding get_value
  read_phase q db = record {
    version = get_value r q.version_id db;
    header = get_value r q.header_id db;
    ciphertext = get_value r q.data_id db;
  }

  -- The second critical section: `true` is the return of 0, `false` that of 1, with nothing stored.
  unfoldable pub write_phase : Request → Snapshot → Option Recoded → Db → Run (Bool × Db)
  write_phase q s texts db = do
    after ← or_fault (get_value r q.version_id db)
    before ← or_fault s.version
    let stored : Run (Bool × Db) = do
      c ← or_fault texts
      next ← print_version (atoi after + 1)
      let db1 = set_value r q.wrap_id q.new_wrap db
      let db2 = set_value r q.header_id c.new_header db1
      let db3 = set_value r q.data_id c.new_ciphertext db2
      ok (true, set_value r q.version_id next db3)
    if same after before then stored else ok (false, db)

-- `delta->length > data_len - 32` is false, for a data_len below 32, whose successor is the second
-- argument. The length is an int, negative from 2 ^ 31 on.
unfoldable passes : ℕ → ℕ → Bool
passes len data_suc = leb (2 ^ 31) len && ltb (len + 32) (2 ^ 32 + data_suc)

unfoldable pub with_header : Option Bytes → Bytes → Option Recoded
with_header none new_ciphertext = none
with_header (some new_header) new_ciphertext =
    some (record { new_header = new_header; new_ciphertext = new_ciphertext })

module _ (e : Evp) (b : Base64) where
  -- The call of AE_ReEncrypt, whose result is not looked at: when it fails, the two output buffers go
  -- on as they were allocated, here the arguments `hat2` and `alloc`. The length that it gets is 32
  -- below that of the data, and so negative for data shorter than a header: a token with a smaller,
  -- negative length passes the test there too, a fault. Data that does not decode has a NULL for its
  -- new text, whose length is printed, a fault too.
  unfoldable pub reencrypted :
      Bytes → CtHatDataEn → (ℕ → Bytes) → DeltaToken → Bytes → Run (CtHatDataEn × Bytes)
  unfolding passes
  reencrypted drawn_iv hat2 alloc delta data_text = do
    ciphertext ← or_fault (b.dec data_text)
    let buffer = alloc (length ciphertext)
    let failed : Reencrypted = record { ret = none; hat = hat2; ciphertext = buffer }
    out ←
        (if ltb (length ciphertext) 32
          then (if passes delta.len (suc (length ciphertext)) then fault else ok failed)
          else ae_reencrypt e drawn_iv delta ciphertext hat2 buffer (length ciphertext - 32))
    new_ciphertext ← or_fault (b.enc out.ciphertext)
    ok (out.hat, new_ciphertext)

  -- The part between the locks. A header that does not decode has a length of 0 or less, for which
  -- base64_enc gives NULL.
  pub recode : Bytes → CtHatDataEn → (ℕ → Bytes) → Request → Snapshot → Run (Option Recoded)
  unfolding reencrypted with_header
  recode drawn_iv hat2 alloc q s = do
    header_text ← or_fault s.header
    data_text ← or_fault s.ciphertext
    delta_bytes ← or_fault (b.dec q.delta)
    delta ← delta_of_bytes delta_bytes
    out ← reencrypted drawn_iv hat2 alloc delta data_text
    elim (b.dec header_text) [
      | none ↦ ok none
      | some header ↦ do
        hat_text ← peek (hat_bytes out.0) 0 (length header)
        ok (with_header (b.enc hat_text) out.1)
    ]

module _ (r : Redis) (e : Evp) (b : Base64) where
  open r use {Db}

  -- The whole command with no other thread in between.
  pub up_update : Bytes → CtHatDataEn → (ℕ → Bytes) → Request → Db → Run (Bool × Db)
  unfolding read_phase write_phase recode
  up_update drawn_iv hat2 alloc q db = do
    let s = read_phase r q db
    c ← recode e b drawn_iv hat2 alloc q s
    write_phase r q s c db
