-- ===== src/Rounds.antt =====
-- A round of updates, src/main: what update_round_coordinator.c sends to the client machines, and
-- the listener of routine_operations_updatable_encryption.c that they run.
pub mod Law
use quicke_r.Prelude.{
  ℕ, ◌+◌, Bool, true, false, some, none, List, [], ◌∷◌, ◌++◌, Bytes, codes, take, replicate, same,
  length, leb, if◌then◌else◌,
}
use quicke_r.Memory.{Run, ok, fault, ◌>>=◌, or_fault}
use quicke_r.Text.Split.{split_by_space}
use quicke_r.Text.Decimal.{decimal}
use quicke_r.Text.Int.{ulong, atoi}
use quicke_r.Server.Values.{c_string}

-- What the coordinator tells a client machine. A start has no parameters there.
pub data Order : Type 0 where
  start : Order
  stop : Order
  finish : Order
  root_key : ℕ → Order

-- `sizeof(buff) + 1`, where `buff` is a pointer: so many bytes of the cleared buffer are sent.
abbrev pub sent_size : ℕ
sent_size = 9

-- send_start, send_client_stop, send_client_end and send_client_root_key, with `root_key_string`,
-- which is printed into ten bytes.
unfoldable pub message : Order → Run Bytes
message start = ok (codes "START " ++ (0 ∷ []))
message stop = ok (take sent_size (codes "STOP " ++ replicate sent_size 0))
message finish = ok (take sent_size (codes "END " ++ replicate sent_size 0))
message (root_key handle) =
    if leb (length (decimal handle) + 1) 10
    then ok (codes "ROOTKEY " ++ (decimal handle ++ (0 ∷ [])))
    else fault

-- The globals run_workload, end_program and key_handle.
pub record Flags : Type 0 where
  pub run_workload : Bool
  pub end_program : Bool
  pub key_handle : ℕ

-- The branches of commandListener on the words of a message; a command that is not known changes
-- nothing, and every one is answered with "DONE ".
unfoldable pub on_words : List Bytes → Flags → Run Flags
on_words [] f = fault
on_words (command ∷ args) f =
    if same command (codes "START")
    then ok (record f { run_workload = true })
    else if same command (codes "STOP")
    then ok (record f { run_workload = false })
    else if same command (codes "END")
    then ok (record f { run_workload = false; end_program = true })
    else if same command (codes "ROOTKEY")
    then (elim args [
      | [] ↦ fault
      | handle ∷ rest ↦ ok (record f { key_handle = ulong (atoi handle) })
    ])
    else ok f

-- One turn of commandListener's loop, on the bytes that recvall put into the buffer.
unfoldable pub command_listener : Bytes → Flags → Run Flags
command_listener received f = do
  text ← or_fault (c_string received)
  on_words (split_by_space text) f

-- The orders of a round, each sent and heard.
pub heard : List Order → Flags → Run Flags
heard [] f = ok f
heard (o ∷ os) f = do bytes ← message o; f' ← command_listener bytes f; heard os f'
