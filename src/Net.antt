-- ===== src/Net.antt =====
-- recvall and sendall, which hiredis_storage/redis_storage.c and simple_server.c share. What each
-- call of `recv` delivers and what each call of `send` accepts is an argument, in the order of the
-- calls: an empty delivery, an acceptance of 0 and the end of the list are a closed or failed
-- connection.
pub mod Framing
pub mod Sending
use quicke_r.Prelude.{
  ℕ, ◌+◌, ◌-◌, ◌&&◌, true, false, List, [], ◌∷◌, ◌++◌, Bytes, length, take, drop, same, leb, ltb,
  if◌then◌else◌,
}
use quicke_r.Memory.{Run, ok, ◌>>=◌, poke, peek}

-- The loop, with `total_bytes` and the buffer. Every call asks for the whole size again, so that a
-- late delivery may not fit, which is a fault.
recv_loop : List Bytes → ℕ → Bytes → ℕ → Run (ℕ × Bytes)
recv_loop [] total buf size = ok (total, buf)
recv_loop (c ∷ cs) total buf size = elim (ltb total size && ltb 0 (length c)) [
  | false ↦ ok (total, buf)
  | true ↦ do
    buf' ← poke buf total c
    last ← peek buf' (total + length c - 1) 1
    elim (same last (0 ∷ [])) [
      | true ↦ ok (total + length c, buf')
      | false ↦ recv_loop cs (total + length c) buf' size
    ]
]

-- The number of bytes and the buffer, with the NUL that is put one byte behind the end.
unfoldable pub recvall : List Bytes → Bytes → ℕ → Run (ℕ × Bytes)
unfolding recv_loop
recvall deliveries recvbuf buffsize = do
  r ← recv_loop deliveries 0 recvbuf buffsize
  buf ← poke r.1 (r.0 + 1) (0 ∷ [])
  ok (r.0, buf)

-- `max_send`
abbrev pub max_send : ℕ
max_send = 50000

-- What one call asks to send: the first 50000 bytes of what is left.
abbrev pub asked : Bytes → Bytes
asked left = take max_send left

-- The bytes that were accepted, call by call, of a text that is left to send.
unfoldable pub send_loop : List ℕ → Bytes → Bytes
send_loop accepts [] = []
send_loop [] (x ∷ left) = []
send_loop (n ∷ accepts) (x ∷ left) = elim n [
  | ℕ.zero ↦ []
  | ℕ.suc k ↦ take (ℕ.suc k) (asked (x ∷ left)) ++ send_loop accepts (drop (ℕ.suc k) (x ∷ left))
]

-- What arrived, and the number that the function returns.
unfoldable pub sendall : List ℕ → Bytes → Bytes × ℕ
unfolding send_loop
sendall accepts sendbuf = (send_loop accepts sendbuf, length (send_loop accepts sendbuf))
