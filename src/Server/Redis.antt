-- ===== src/Server/Redis.antt =====
-- Redis, which the server reaches through hiredis and which is no code of this repository: its
-- stores, GET and SET, with what its manual says of them.
use quicke_r.Prelude.{◌≡◌, Option, some, Bytes, same, if◌then◌else◌}

pub record Redis : Type 1 where
  pub Db : Type 0
  pub get : Db → Bytes → Option Bytes
  pub set : Db → Bytes → Bytes → Db
  pub get-set :
      (db : Db) (k j v : Bytes) → get (set db k v) j ≡ (if same k j then some v else get db j)
