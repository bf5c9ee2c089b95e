-- ===== src/Net/Sending.antt =====
-- sendall sends everything, in order, whatever each call accepts.
use quicke_r.Prelude.{
  ℕ, zero, suc, ◌≤◌, ◌≡◌, refl, ap, ◌∙◌, List, [], ◌∷◌, ◌++◌, Bytes, length, take, drop,
  take-append-drop, length-drop, All, arith,
}
use quicke_r.Net.{max_send, send_loop, sendall}

take-take : (n k : ℕ) (s : Bytes) → n ≤ k → take n (take k s) ≡ take n s
take-take zero k s h = refl
take-take (suc n) zero s h = absurd (omega arith)
take-take (suc n) (suc k) [] h = refl
take-take (suc n) (suc k) (x ∷ s) h = ap (λ t. x ∷ t) (take-take n k s (omega arith))

send_loop_whole :
    (accepts : List ℕ) (s : Bytes)
    → All (λ n. (1 ≤ n) × (n ≤ max_send)) accepts
    → length s ≤ length accepts
    → send_loop accepts s ≡ s
unfolding send_loop
send_loop_whole accepts [] h enough = refl
send_loop_whole [] (x ∷ s) h enough = absurd (omega arith)
send_loop_whole (zero ∷ accepts) (x ∷ s) h enough = absurd (omega (arith, h.0))
send_loop_whole (suc k ∷ accepts) (x ∷ s) h enough =
    let rest =
      send_loop_whole accepts (drop (suc k) (x ∷ s)) h.1
        (omega (arith, length-drop (suc k) (x ∷ s))) in
    ap (λ t. t ++ send_loop accepts (drop (suc k) (x ∷ s)))
      (take-take (suc k) max_send (x ∷ s) h.0.1)
    ∙ ap (λ t. take (suc k) (x ∷ s) ++ t) rest
    ∙ take-append-drop (suc k) (x ∷ s)

-- When every call accepts a byte at least and 50000 at most, and there are as many calls as bytes,
-- the peer gets the whole buffer in order, and the number returned is its size.
pub sendall_whole :
    (accepts : List ℕ) (sendbuf : Bytes)
    → All (λ n. (1 ≤ n) × (n ≤ max_send)) accepts
    → length sendbuf ≤ length accepts
    → sendall accepts sendbuf ≡ (sendbuf, length sendbuf)
unfolding sendall
sendall_whole accepts sendbuf h enough = rw (send_loop_whole accepts sendbuf h enough)
