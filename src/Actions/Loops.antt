-- ===== src/Actions/Loops.antt =====
-- The loops of actions.c that call the hardware module until it succeeds.
pub mod Ends
pub mod Answers
use quicke_r.Prelude.{
  ℕ, zero, suc, ◌≡◌, true, false, ◌==◌, Option, none, some, Bytes, ◌≤◌, Bool-cases, inl, inr, arith,
}
use quicke_r.Memory.{Run, ok, abort, ◌>>=◌}
use quicke_r.Hsm.{Hsm}

module _ (h : Hsm) where
  open h use {Session, encrypt, decrypt, generate, reset}

  -- `while(1)` around hsm_aes_encrypt. Here and below `abort` is a loop that still runs after so
  -- many attempts, or the `exit` of a call.
  unfoldable pub wrap_loop : ℕ → ℕ → Bytes → Session → Run (Bytes × Session)
  wrap_loop zero handle plain s = abort
  wrap_loop (suc patience) handle plain s = do
    r ← encrypt handle plain s
    elim (r.0 == 0) [ true ↦ ok (r.1, r.2) | false ↦ wrap_loop patience handle plain r.2 ]

  -- `while(1)` around hsm_aes_decrypt, with a new connection on the value 7.
  unfoldable pub unwrap_loop : ℕ → ℕ → Bytes → Session → Run (Bytes × Session)
  unwrap_loop zero handle wrapped s = abort
  unwrap_loop (suc patience) handle wrapped s = do
    r ← decrypt handle wrapped s
    elim (r.0 == 7) [
      | true ↦ unwrap_loop patience handle wrapped (reset r.2)
      | false ↦ elim (r.0 == 0) [
        | true ↦ ok (r.1, r.2)
        | false ↦ unwrap_loop patience handle wrapped r.2
      ]
    ]

  -- The loop of updatable_update_dek_and_ciphertext, which gives up on any other value.
  unfoldable pub unwrap_or_fail : ℕ → ℕ → Bytes → Session → Run (Option Bytes × Session)
  unwrap_or_fail zero handle wrapped s = abort
  unwrap_or_fail (suc patience) handle wrapped s = do
    r ← decrypt handle wrapped s
    elim (r.0 == 7) [
      | true ↦ unwrap_or_fail patience handle wrapped (reset r.2)
      | false ↦ elim (r.0 == 0) [ true ↦ ok (some r.1, r.2) | false ↦ ok (none, r.2) ]
    ]

  -- The calls after a failed one: the loop ends when `counter` exceeds 10.
  unfoldable pub generate_loop : ℕ → ℕ × ℕ × Session → ℕ × ℕ × Session
  generate_loop zero r = r
  generate_loop (suc left) r = elim (r.0 == 0) [
    | true ↦ r
    | false ↦ generate_loop left (generate r.2)
  ]

  -- The CK_RV, the handle, and the session.
  unfoldable pub generate_new_k_master : Session → ℕ × ℕ × Session
  unfolding generate_loop
  generate_new_k_master s = generate_loop 11 (generate s)

  -- The result `k` calls of C_GenerateKey later, each in the session that the last one left.
  abbrev pub generated_later : ℕ → ℕ × ℕ × Session → ℕ × ℕ × Session
  generated_later zero r = r
  generated_later (suc k) r = generated_later k (generate r.2)

  generate_loop_ok : (left : ℕ) (r : ℕ × ℕ × Session) → r.0 ≡ 0 → (generate_loop left r).0 ≡ 0
  unfolding generate_loop
  generate_loop_ok zero r h0 = h0
  generate_loop_ok (suc left) r h0 = rw (h0, generate_loop) h0

  generate_loop_reaches :
      (k left : ℕ) (r : ℕ × ℕ × Session)
      → k ≤ left
      → (generated_later k r).0 ≡ 0
      → (generate_loop left r).0 ≡ 0
  unfolding generate_loop
  generate_loop_reaches zero left r le h0 = generate_loop_ok left r h0
  generate_loop_reaches (suc k) zero r le h0 = absurd (omega arith)
  generate_loop_reaches (suc k) (suc left) r le h0 = elim (Bool-cases (r.0 == 0)) [
    | inl done ↦ generate_loop_ok (suc left) r (ground (arith, done))
    | inr failed ↦
        rw (failed, generate_loop) (generate_loop_reaches k left (generate r.2) (omega arith) h0)
  ]

  -- A master key is generated when one of the first twelve calls succeeds.
  pub generate_new_k_master-succeeds :
      (k : ℕ) (s : Session)
      → k ≤ 11
      → (generated_later k (generate s)).0 ≡ 0
      → (generate_new_k_master s).0 ≡ 0
  unfolding generate_new_k_master
  generate_new_k_master-succeeds k s le h0 = generate_loop_reaches k 11 (generate s) le h0
