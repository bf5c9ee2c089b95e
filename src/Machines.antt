-- ===== src/Machines.antt =====
-- src/main/ciphertext_updates_updatable_encryption.c: a machine that updates its share of the
-- ciphertexts, and the part of src/main/update_round_coordinator.c that starts it.
pub mod KeyFile
pub mod Share
pub mod Loop
pub mod Visits
pub mod Standing
pub mod Sequence
pub mod Started
pub mod Round
use quicke_r.Prelude.{
  ℕ, zero, suc, ◌+◌, ◌-◌, Bool, true, false, Option, none, some, List, [], ◌∷◌, ◌++◌, Bytes, codes,
  length, take, same, ltb, leb, get_elem?, if◌then◌else◌,
}
use quicke_r.Memory.{Run, ok, abort, fault, ◌>>=◌, or_fault}
use quicke_r.Crypto.Evp.{Evp}
use quicke_r.Text.Split.{split_by_space}
use quicke_r.Text.Decimal.{decimal}
use quicke_r.Text.Int.{atoi}
use quicke_r.Server.Redis.{Redis}
use quicke_r.Server.Values.{c_string}
use quicke_r.Server.Update.{Base64}
use quicke_r.Server.Turn.{Site}
use quicke_r.Hsm.{Hsm}
use quicke_r.Wire.{Network}
use quicke_r.Wire.Rekeyed.{Draws}
use quicke_r.Wire.Calls.{Around, Call, run_calls}

-- The servers by their addresses, the global `buff` of the machine, and the session of the HSM.
pub record Fleet (r : Redis) (h : Hsm) : Type 0 where
  pub sites : Bytes → Site r
  pub client : Bytes
  pub session : h.Session

-- What the two downloads and the update of a visit meet.
pub record Visit : Type 0 where
  pub before : Around
  pub network : Network
  pub draws : Draws
  pub stack : Bytes
  pub after : Around

-- db_key_list and db_key_ip_addr, of which an entry is unset where its line was not two words.
abbrev pub KeyList : Type 0
KeyList = List (Option (Bytes × Bytes))

unfoldable pub entry_at : KeyList → ℕ → Run (Bytes × Bytes)
entry_at keys index = do slot ← or_fault (get_elem? keys index); or_fault slot

module _ (r : Redis) (e : Evp) (b : Base64) (h : Hsm) where
  unfoldable pub put_site : Bytes → Site r → (Bytes → Site r) → Bytes → Site r
  put_site address site sites other = if same address other then site else sites other

  -- update_ip_addr, and then download, update and download. The two texts are compared by
  -- `strncmp`, over the length of the first and its NUL; one that was not downloaded is unset.
  unfoldable pub visit : ℕ → Visit → Bytes → Bytes → Fleet r h → Run (Bool × Fleet r h)
  unfolding put_site
  visit patience v id address w = do
    out ←
        run_calls r e b h patience id
          (Call.download v.before
            ∷ Call.update v.network v.draws v.stack
            ∷ Call.download v.after
            ∷ [])
          (record { site = w.sites address; client = w.client }, w.session)
    elim out.0 [
      | before ∷ after ∷ [] ↦ do
        first ← or_fault before
        second ← or_fault after
        ok (
          same second first,
          record {
            sites = put_site address out.1.0.site w.sites;
            client = out.1.0.client;
            session = out.1.1;
          },
        )
      | _ ↦ fault
    ]

  unfoldable pub visit_at : ℕ → (ℕ → Visit) → KeyList → ℕ → Fleet r h → Run (Bool × Fleet r h)
  unfolding entry_at visit
  visit_at patience visits keys index w = do
    entry ← entry_at keys index
    visit patience (visits index) entry.0 entry.1 w

  -- `for (key_index = start; key_index < total_keys; key_index += offset)`, with what each
  -- comparison said. `abort` is a loop that still runs after so many turns.
  unfoldable pub round_loop :
      ℕ → ℕ → (ℕ → Visit) → KeyList → ℕ → ℕ → Fleet r h → Run (List Bool × Fleet r h)
  unfolding visit_at
  round_loop zero patience visits keys index offset w = abort
  round_loop (suc turns) patience visits keys index offset w = elim (ltb index (length keys)) [
    | false ↦ ok ([], w)
    | true ↦ do
      first ← visit_at patience visits keys index w
      rest ← round_loop turns patience visits keys (index + offset) offset first.1
      ok (first.0 ∷ rest.0, rest.1)
  ]

  -- One turn of the listener on the bytes that arrived: the reply, if there is one, and what the
  -- comparisons said. END is an `exit`; an unknown command gets no reply.
  unfoldable pub on_message :
      ℕ → ℕ → (ℕ → Visit) → KeyList → Bytes → Fleet r h → Run (Option Bytes × List Bool × Fleet r h)
  unfolding round_loop
  on_message turns patience visits keys received w = do
    text ← or_fault (c_string received)
    elim (split_by_space text) [
      | [] ↦ fault
      | command ∷ args ↦
          if same command (codes "START")
          then (elim args [
            | start ∷ offset ∷ rest ↦ do
              out ← round_loop turns patience visits keys (atoi start) (atoi offset) w
              ok (some (codes "DONE "), out.0, out.1)
            | _ ↦ fault
          ])
          else if same command (codes "END")
          then abort
          else ok (none, [], w)
    ]

-- update_additional_param_for_send_start of the coordinator: each number is printed into
-- `char i_string[4]`, and both go into `char additional_params[10]`.
unfoldable pub printed_param : ℕ → Run Bytes
printed_param n = if leb (length (decimal n) + 1) 4 then ok (decimal n) else fault

unfoldable pub additional_param : ℕ → ℕ → Run Bytes
unfolding printed_param
additional_param starting_index index_offset = do
  first ← printed_param starting_index
  second ← printed_param index_offset
  let text = first ++ (b' ' ∷ second)
  if leb (length text + 1) 10 then ok text else fault

-- send_start, with the parameters that it finds.
unfoldable pub start_message : Bytes → Bytes
start_message params = codes "START " ++ (params ++ (0 ∷ []))

-- What a machine keeps between its visits, and what stands behind the message in its `recvbuff`.
pub record Crew (h : Hsm) : Type 0 where
  pub client : Bytes
  pub session : h.Session
  pub stale : Bytes
