-- ===== src/Actions/Loops/Ends.antt =====
-- The loops end when one of their calls succeeds, with what that call gave.
use quicke_r.Prelude.{ℕ, zero, suc, ◌≡◌, ◌≢◌, refl, ◌++◌, false, ◌==◌, some, Bytes, ◌<◌, arith}
use quicke_r.Memory.{ok, ◌>>=◌}
use quicke_r.Hsm.{Hsm, HsmLaws}
use quicke_r.Actions.Loops.{wrap_loop, unwrap_loop, unwrap_or_fail}

module _ (h : Hsm) where
  open h use {Session, encrypt, decrypt, reset}

  -- hsm_aes_encrypt fails so many times and then succeeds, each call in the session that the last
  -- one left.
  pub data Wraps (handle : ℕ) (plain : Bytes) : ℕ → Session → Bytes → Session → Type 0 where
    done :
        {s s' : Session} {out : Bytes}
        → encrypt handle plain s ≡ ok (0, out, s')
        → Wraps handle plain 0 s out s'
    retry :
        {k rv : ℕ} {s s1 s' : Session} {junk out : Bytes}
        → encrypt handle plain s ≡ ok (rv, junk, s1)
        → rv ≢ 0
        → Wraps handle plain k s1 out s'
        → Wraps handle plain (suc k) s out s'

  -- hsm_aes_decrypt likewise, with a new connection after the value 7.
  pub data Unwraps (handle : ℕ) (wrapped : Bytes) : ℕ → Session → Bytes → Session → Type 0 where
    done :
        {s s' : Session} {out : Bytes}
        → decrypt handle wrapped s ≡ ok (0, out, s')
        → Unwraps handle wrapped 0 s out s'
    renew :
        {k : ℕ} {s s1 s' : Session} {junk out : Bytes}
        → decrypt handle wrapped s ≡ ok (7, junk, s1)
        → Unwraps handle wrapped k (reset s1) out s'
        → Unwraps handle wrapped (suc k) s out s'
    retry :
        {k rv : ℕ} {s s1 s' : Session} {junk out : Bytes}
        → decrypt handle wrapped s ≡ ok (rv, junk, s1)
        → rv ≢ 7
        → rv ≢ 0
        → Unwraps handle wrapped k s1 out s'
        → Unwraps handle wrapped (suc k) s out s'

  -- hsm_aes_decrypt gives the value 7 so many times and then succeeds, which is all that an update
  -- goes on after.
  pub data Reopens (handle : ℕ) (wrapped : Bytes) : ℕ → Session → Bytes → Session → Type 0 where
    done :
        {s s' : Session} {out : Bytes}
        → decrypt handle wrapped s ≡ ok (0, out, s')
        → Reopens handle wrapped 0 s out s'
    renew :
        {k : ℕ} {s s1 s' : Session} {junk out : Bytes}
        → decrypt handle wrapped s ≡ ok (7, junk, s1)
        → Reopens handle wrapped k (reset s1) out s'
        → Reopens handle wrapped (suc k) s out s'

  pub Reopens-Unwraps :
      {handle : ℕ} {wrapped : Bytes} {k : ℕ} {out : Bytes} {s s' : Session}
      → Reopens handle wrapped k s out s'
      → Unwraps handle wrapped k s out s'
  Reopens-Unwraps (done e) = Unwraps.done e
  Reopens-Unwraps (renew e u) = Unwraps.renew e (Reopens-Unwraps u)

  pub unwrap_or_fail-ends :
      (k patience handle : ℕ) (wrapped out : Bytes) (s s' : Session)
      → Reopens handle wrapped k s out s'
      → k < patience
      → unwrap_or_fail h patience handle wrapped s ≡ ok (some out, s')
  unfolding unwrap_or_fail
  unwrap_or_fail-ends k zero handle wrapped out s s' u lt = absurd (omega arith)
  unwrap_or_fail-ends _ (suc patience) handle wrapped out s s' (done e) lt =
      rw (unwrap_or_fail, e) refl
  unwrap_or_fail-ends (suc k) (suc patience) handle wrapped out s s' (renew {s1 = s1} e u) lt =
      rw (unwrap_or_fail, e, ◌>>=◌)
        (unwrap_or_fail-ends k patience handle wrapped out (reset s1) s' u (omega arith))

  -- The loop that wraps a key ends when any of its calls succeeds, with what that call gave.
  pub wrap_loop-ends :
      (k patience handle : ℕ) (plain out : Bytes) (s s' : Session)
      → Wraps handle plain k s out s'
      → k < patience
      → wrap_loop h patience handle plain s ≡ ok (out, s')
  unfolding wrap_loop
  wrap_loop-ends k zero handle plain out s s' w lt = absurd (omega arith)
  wrap_loop-ends _ (suc patience) handle plain out s s' (done e) lt = rw (wrap_loop, e) refl
  wrap_loop-ends (suc k) (suc patience) handle plain out s s' (retry {rv = rv} {s1 = s1} e ne w)
        lt =
      let failed : (rv == 0) ≡ false = ground (arith, ne) in
      rw (wrap_loop, e, ◌>>=◌)
        (rw failed (wrap_loop-ends k patience handle plain out s1 s' w (omega arith)))

  -- The loop that unwraps a key, likewise.
  pub unwrap_loop-ends :
      (k patience handle : ℕ) (wrapped out : Bytes) (s s' : Session)
      → Unwraps handle wrapped k s out s'
      → k < patience
      → unwrap_loop h patience handle wrapped s ≡ ok (out, s')
  unfolding unwrap_loop
  unwrap_loop-ends k zero handle wrapped out s s' u lt = absurd (omega arith)
  unwrap_loop-ends _ (suc patience) handle wrapped out s s' (done e) lt = rw (unwrap_loop, e) refl
  unwrap_loop-ends (suc k) (suc patience) handle wrapped out s s' (renew {s1 = s1} e u) lt =
      rw (unwrap_loop, e, ◌>>=◌)
        (unwrap_loop-ends k patience handle wrapped out (reset s1) s' u (omega arith))
  unwrap_loop-ends (suc k) (suc patience) handle wrapped out s s'
        (retry {rv = rv} {s1 = s1} e n7 n0 u) lt =
      let other : (rv == 7) ≡ false = ground (arith, n7) in
      let failed : (rv == 0) ≡ false = ground (arith, n0) in
      rw (unwrap_loop, e, ◌>>=◌)
        (rw (other, failed) (unwrap_loop-ends k patience handle wrapped out s1 s' u (omega arith)))

  module _ (l : HsmLaws h) where
    pub Wraps-Wrapped :
        {handle : ℕ} {plain : Bytes} {k : ℕ} {out : Bytes} {s s' : Session}
        → Wraps handle plain k s out s'
        → l.Wrapped handle plain out
    Wraps-Wrapped (done e) = l.encrypt-Wrapped _ _ _ _ _ e
    Wraps-Wrapped (retry e ne w) = Wraps-Wrapped w

    pub Unwraps-begins :
        {handle : ℕ} {plain wrapped : Bytes} {k : ℕ} {out : Bytes} {s s' : Session}
        → l.Wrapped handle plain wrapped
        → Unwraps handle wrapped k s out s'
        → (rest : Bytes) × (out ≡ plain ++ rest)
    Unwraps-begins w (done e) = l.decrypt-Wrapped _ _ _ _ _ _ w e
    Unwraps-begins w (renew e u) = Unwraps-begins w u
    Unwraps-begins w (retry e n7 n0 u) = Unwraps-begins w u
