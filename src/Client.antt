-- ===== src/Client.antt =====
-- hiredis_storage/redis_storage.c: the client's requests to the server and what it makes of the
-- replies.
pub mod Requests
pub mod Words
pub mod Replies
use quicke_r.Prelude.{
  ℕ, ◌*◌, Bool, Option, none, some, List, [], ◌∷◌, Bytes, length, ltb, if◌then◌else◌,
}
use quicke_r.Memory.{Run, ok, fault, ◌>>=◌, or_fault}
use quicke_r.Text.Split.{split_by_space}
use quicke_r.Server.Update.{Base64}
use quicke_r.Client.Requests.{
  set_request, get_request, getall_request, setall_request, savedata_request, populate_request,
  root_key_request,
}

-- A server at the other end: init_redis, sendall, recvall and the close, on the bytes of a request
-- and giving the text of the reply. A connection that ten attempts do not make ends in `exit`,
-- which is `abort`. `serve` receives the reply in the global `buff`, and `serve_own` in a buffer of the
-- request's size. `usable` is malloc_usable_size of what the client's malloc gives for a size: writes
-- past the size but not past that many bytes have no effect on other data, and further ones are a
-- fault.
pub record Peer : Type 1 where
  pub World : Type 0
  pub serve : Bytes → World → Run (Bytes × World)
  pub serve_own : Bytes → World → Run (Bytes × World)
  pub usable : ℕ → ℕ

-- A decoded value: `none` is NULL, whose length `*sizes` has is 0 or negative.
pub record Value : Type 0 where
  pub bytes : Option Bytes
  pub is_zero : Bool

module _ (p : Peer) (b : Base64) where
  open p use {World, serve}

  pub set : Bytes → Bytes → World → Run World
  set key value w = do request ← set_request b key value; r ← serve request w; ok r.1

  -- The decoded value, `none` where it is NULL and the length not positive.
  pub get : Bytes → World → Run (Option Bytes × World)
  get key w = do r ← serve (get_request key) w; ok (b.dec r.0, r.1)

  -- One value for each key, read past the array of the reply's words where these are fewer.
  decode_values : List Bytes → List Bytes → Run (List Value)
  decode_values [] words = ok []
  decode_values (k ∷ ks) [] = fault
  decode_values (k ∷ ks) (v ∷ vs) = do
    rest ← decode_values ks vs
    ok (record { bytes = b.dec v; is_zero = b.dec_zero v } ∷ rest)

  -- The sizes, of four bytes each, are written into `malloc(numkeys)`.
  pub getall : List Bytes → World → Run (List Value × World)
  unfolding decode_values
  getall keys w = do
    r ← serve (getall_request keys) w
    values ← decode_values keys (split_by_space r.0)
    if ltb (p.usable (length keys)) (4 * length keys) then fault else ok (values, r.1)

  -- The reply is not looked at: a refused SETALL returns 1 as well.
  pub setall : List (Bytes × Bytes) → World → Run World
  setall key_values w = do request ← setall_request b key_values; r ← serve request w; ok r.1

  pub savedata : Bytes → World → Run World
  savedata value w = do r ← serve (savedata_request value) w; ok r.1

  pub populate : Bytes → World → Run World
  populate value w = do r ← serve (populate_request value) w; ok r.1

  -- The fifteen bytes of the stack array and the byte behind the text in the buffer are arguments.
  pub send_root_key : Bytes → ℕ → ℕ → World → Run World
  send_root_key stack behind root_key w = do
    request ← root_key_request b stack behind root_key
    r ← serve request w
    ok r.1
