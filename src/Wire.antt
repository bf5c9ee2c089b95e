-- ===== src/Wire.antt =====
-- The client of redis_storage.c and the server of simple_server.c at the two ends of a connection:
-- what the client's requests do to the server's store, and what its operations give.
pub mod Tokens
pub mod Exchange
pub mod Stores
pub mod Accepted
pub mod Values
pub mod Replaced
pub mod Kept
pub mod Request
pub mod Rekeyed
pub mod Upload
pub mod Download
pub mod Calls
pub mod Traffic
pub mod Journey
pub mod Life
use quicke_r.Prelude.{
  ℕ, ◌≤◌, ◌≡◌, Option, none, some, List, [], ◌∷◌, ◌++◌, Bytes, length, replicate, All,
}
use mathlib.Core.List.{flatten}
use quicke_r.Memory.{Run, ok, abort, ◌>>=◌, or_fault, poke}
use quicke_r.Crypto.Evp.{Evp}
use quicke_r.Net.{max_send, sendall, recvall}
use quicke_r.Net.Framing.{Framed}
use quicke_r.Nested.Layout.{CtHatDataEn}
use quicke_r.Server.Redis.{Redis}
use quicke_r.Server.Values.{c_string}
use quicke_r.Server.Update.{Base64}
use quicke_r.Server.Commands.Reply.{IsText}
use quicke_r.Server.Turn.{Site, turn}
use quicke_r.Client.{Peer}

-- How many bytes each call of `send` accepts of a buffer, and the pieces in which a message arrives.
-- The laws are those of a stream socket: no call sends more than it was given to, no byte is lost,
-- and of a text with its NUL only the last piece ends in NUL. `usable` belongs to the client's malloc,
-- which in glibc gives no less than 24 bytes.
pub record Network : Type 0 where
  pub accepts : Bytes → List ℕ
  pub cut : Bytes → List Bytes
  pub accepts-some : (x : Bytes) → All (λ n. (1 ≤ n) × (n ≤ max_send)) (accepts x)
  pub accepts-enough : (x : Bytes) → length x ≤ length (accepts x)
  pub cut-whole : (x : Bytes) → flatten (cut x) ≡ x
  pub usable : ℕ → ℕ
  pub usable_least : (k : ℕ) → 24 ≤ usable k
  pub cut-Framed : (t : Bytes) → IsText t → Framed (cut (t ++ (0 ∷ [])))

-- What arrives of a buffer that is sent.
unfoldable pub arriving : Network → Bytes → List Bytes
arriving n x = n.cut (sendall (n.accepts x) x).0

-- The server's thread, and the global `buff` of the client, whose size is MAX.
pub record Ends (r : Redis) : Type 0 where
  pub site : Site r
  pub client : Bytes

module _ (r : Redis) (e : Evp) (b : Base64) (drawn_iv : Bytes) (hat2 : CtHatDataEn)
    (alloc : ℕ → Bytes) (n : Network) where
  -- The client builds its request in its buffer, sends it, and receives the reply in the same
  -- buffer. `abort` is a client that waits for a reply to a command that is not known.
  unfoldable pub exchange : Bytes → Ends r → Run (Bytes × Ends r)
  unfolding arriving
  exchange request w = do
    written ← poke w.client 0 request
    t ← turn r e b drawn_iv hat2 alloc (arriving n request) w.site
    elim t.0 [
      | none ↦ abort
      | some text ↦ do
        received ← recvall (arriving n (text ++ (0 ∷ []))) written (length written)
        got ← or_fault (c_string received.1)
        ok (got, record { site = t.1; client = received.1 })
    ]

  -- The same with a buffer of the request's size, which is cleared before the reply arrives.
  unfoldable pub exchange_own : Bytes → Ends r → Run (Bytes × Ends r)
  unfolding arriving
  exchange_own request w = do
    t ← turn r e b drawn_iv hat2 alloc (arriving n request) w.site
    elim t.0 [
      | none ↦ abort
      | some text ↦ do
        let cleared = replicate (length request) 0
        received ← recvall (arriving n (text ++ (0 ∷ []))) cleared (length request)
        ok (received.1, record w { site = t.1 })
    ]

  abbrev pub peer : Peer
  peer = record { World = Ends r; serve = exchange; serve_own = exchange_own; usable = n.usable }
