-- ===== src/Server/Commands.antt =====
-- The command loop of simple_server.c's myThreadFun, from the words of a request to what it copies
-- into the reply, and the reply that it then sends.
pub mod Reply
pub mod SetGet
pub mod Batch
pub mod Update
pub mod Populate
use quicke_r.Prelude.{
  ℕ, ◌+◌, Bool, true, false, Option, none, some, List, [], ◌∷◌, ◌++◌, Bytes, codes, length, same,
  if◌then◌else◌,
}
use quicke_r.Memory.{Run, ok, fault, ◌>>=◌, or_fault, poke}
use quicke_r.Crypto.Evp.{Evp}
use quicke_r.Nested.Layout.{CtHatDataEn}
use quicke_r.Server.Redis.{Redis}
use quicke_r.Server.Values.{
  c_string, get_value, set_value, getall_values, setall_values, update_root_key,
}
use quicke_r.Server.Update.{Base64, Request, up_update}

-- The globals current_root_key and savebuf, and the store behind the server. `behind` is the memory
-- that the linker puts behind the twenty bytes of current_root_key: the text of a root key fills them,
-- so that strlen and strncmp read on there.
pub record State (r : Redis) : Type 0 where
  pub root_key : Bytes
  pub behind : Bytes
  pub savebuf : Bytes
  pub db : r.Db

-- What strlen and strncmp see of current_root_key.
abbrev pub current_root_key : (r : Redis) → State r → Option Bytes
current_root_key r s = c_string (s.root_key ++ s.behind)

-- `char* result = "0"` and a result size of 1 or 0.
unfoldable pub flag : Bool → Bytes
flag true = codes "0"
flag false = []

-- The value of GET, or nothing for a missing key, whose result size is 0.
unfoldable pub value_or_nil : Option Bytes → Bytes
value_or_nil none = []
value_or_nil (some v) = v

module _ (r : Redis) where
  unfoldable pub populate_keys : List Bytes → Bytes → r.Db → r.Db
  populate_keys [] value db = db
  populate_keys (k ∷ ks) value db = populate_keys ks value (set_value r k value db)

  -- Each handler has the words behind the command, and reads past them where there are too few.
  unfoldable pub on_get : List Bytes → State r → Run (Bytes × State r)
  unfolding value_or_nil
  on_get [] s = fault
  on_get (key ∷ rest) s = ok (value_or_nil (get_value r key s.db), s)

  -- Without keys the final NUL goes in front of the allocation.
  on_getall : List Bytes → State r → Run (Bytes × State r)
  on_getall [] s = fault
  on_getall (key ∷ keys) s = ok (getall_values r (key ∷ keys) s.db ++ (0 ∷ []), s)

  unfoldable pub on_set : List Bytes → State r → Run (Bytes × State r)
  on_set (key ∷ value ∷ rest) s = ok (codes "0", record s { db = set_value r key value s.db })
  on_set _ s = fault

  on_setall : List Bytes → State r → Run (Bytes × State r)
  unfolding flag
  on_setall key_values s = do
    out ← setall_values r (current_root_key r s) key_values s.db
    ok (flag out.0, record s { db = out.1 })

  on_savedata : List Bytes → State r → Run (Bytes × State r)
  on_savedata [] s = fault
  on_savedata (data_word ∷ rest) s = ok (codes "0", record s { savebuf = data_word })

  on_populate : List Bytes → State r → Run (Bytes × State r)
  unfolding populate_keys
  on_populate keys s = ok (codes "0", record s { db = populate_keys keys s.savebuf s.db })

  on_rootkey : List Bytes → State r → Run (Bytes × State r)
  on_rootkey [] s = fault
  on_rootkey (key ∷ rest) s = do
    array ← update_root_key key s.root_key
    ok (codes "0", record s { root_key = array })

  module _ (e : Evp) (b : Base64) (drawn_iv : Bytes) (hat2 : CtHatDataEn) (alloc : ℕ → Bytes) where
    -- up_update returns 0 where it stored and 1 where it did not.
    on_update : List Bytes → State r → Run (Bytes × State r)
    unfolding flag
    on_update (wrap_id ∷ header_id ∷ data_id ∷ ctxt_ver ∷ new_wrap ∷ delta ∷ rest) s = do
      out ←
          up_update r e b drawn_iv hat2 alloc
            (record {
              wrap_id = wrap_id;
              header_id = header_id;
              data_id = data_id;
              version_id = ctxt_ver;
              new_wrap = new_wrap;
              delta = delta;
            })
            s.db
      ok ((if out.0 then [] else codes "0"), record s { db = out.1 })
    on_update _ s = fault

    -- `none` is a command that is not known, which gets no reply.
    unfoldable pub known : Run (Bytes × State r) → Run (Option (Bytes × State r))
    known out = do o ← out; ok (some o)

    -- One turn of the loop on the words of a request.
    unfoldable pub run_command : List Bytes → State r → Run (Option (Bytes × State r))
    unfolding on_get on_getall on_set on_setall on_update on_savedata on_populate on_rootkey known
    run_command [] s = fault
    run_command (command ∷ args) s =
        if same command (codes "GET")
        then known (on_get args s)
        else if same command (codes "GETALL")
        then known (on_getall args s)
        else if same command (codes "SET")
        then known (on_set args s)
        else if same command (codes "SETALL")
        then known (on_setall args s)
        else if same command (codes "UP_UPDATE")
        then known (on_update args s)
        else if same command (codes "SAVEDATA")
        then known (on_savedata args s)
        else if same command (codes "POPULATE")
        then known (on_populate args s)
        else if same command (codes "ROOTKEY")
        then known (on_rootkey args s)
        else ok none

-- The reply: the result goes over the request in the same buffer, with a NUL one byte behind its
-- end, and the text up to the first NUL is sent. Then the first byte of the buffer is cleared.
unfoldable pub reply : Bytes → Bytes → Run (Bytes × Bytes)
reply buff result = do
  copied ← poke buff 0 result
  ended ← poke copied (length result + 1) (0 ∷ [])
  text ← or_fault (c_string ended)
  cleared ← poke ended 0 (0 ∷ [])
  ok (text, cleared)
