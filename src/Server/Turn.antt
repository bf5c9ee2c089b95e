-- ===== src/Server/Turn.antt =====
-- One turn of the loop of simple_server.c's myThreadFun, from the bytes that arrive to the text
-- that is sent back.
use quicke_r.Prelude.{ℕ, Option, none, some, List, Bytes, length}
use quicke_r.Memory.{Run, ok, ◌>>=◌, or_fault}
use quicke_r.Crypto.Evp.{Evp}
use quicke_r.Text.Split.{split_by_space}
use quicke_r.Net.{recvall}
use quicke_r.Nested.Layout.{CtHatDataEn}
use quicke_r.Server.Redis.{Redis}
use quicke_r.Server.Values.{c_string}
use quicke_r.Server.Update.{Base64}
use quicke_r.Server.Commands.{State, run_command, reply}

-- What a thread keeps between two turns: the globals and the store, and `buff`, whose size is
-- BUFFMAX.
pub record Site (r : Redis) : Type 0 where
  pub state : State r
  pub buff : Bytes

module _ (r : Redis) (e : Evp) (b : Base64) (drawn_iv : Bytes) (hat2 : CtHatDataEn)
    (alloc : ℕ → Bytes) where
  -- `none` is a command that is not known: the turn ends without a reply, and the connection is not
  -- closed.
  unfoldable pub turn : List Bytes → Site r → Run (Option Bytes × Site r)
  turn deliveries s = do
    received ← recvall deliveries s.buff (length s.buff)
    request ← or_fault (c_string received.1)
    out ← run_command r e b drawn_iv hat2 alloc (split_by_space request) s.state
    elim out [
      | none ↦ ok (none, record s { buff = received.1 })
      | some done ↦ do
        sent ← reply received.1 done.0
        ok (some sent.0, record { state = done.1; buff = sent.1 })
    ]
