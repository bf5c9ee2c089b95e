-- ===== src/Hsm/RoundTrip.antt =====
-- hsm_aes_encrypt and hsm_aes_decrypt stay inside their buffers, and the second undoes the first.
use quicke_r.Prelude.{
  ℕ, ◌+◌, ◌≤◌, ◌≡◌, refl, sym, ap, ◌∙◌, inl, inr, [], ◌++◌, append-nil, Bytes, length,
  length-append, take, replicate, length-replicate, take-append, drop, drop-append, ◌==◌,
  if◌then◌else◌, Bool-cases, arith,
}
use quicke_r.Memory.{Run, ok, poke}
use quicke_r.Memory.Binds.{Outcome, outcome_ok}
use quicke_r.Memory.Regions.{poke_at, peek_at}
use quicke_r.Hsm.{HsmLaws}
use quicke_r.Hsm.Pkcs11.{Pkcs11, Pkcs11Laws}
use quicke_r.Hsm.Wrap.{
  init_failed, encrypt_sized, hsm_aes_encrypt, decrypt_sized, hsm_aes_decrypt, hsm_of,
}
use quicke_r.Hsm.Buffers.{encrypt_writes, front_write, end_write}

module _ (p : Pkcs11) (l : Pkcs11Laws p) where
  open p use {Session, encrypt_init, encrypt_size, encrypt, decrypt_init, decrypt_size, decrypt}

  -- A wrapped text: the iv in front of the sealed text.
  abbrev pub Sealed : ℕ → Bytes → Bytes → Type 0
  Sealed handle plain wrapped =
      (iv : Bytes) × (length iv ≡ 12) × (wrapped ≡ iv ++ l.seal handle iv plain)

  encrypt_sized_lem :
      (plain : Bytes) (size : ℕ) (s : Session)
      → length plain + 16 ≤ size
      → encrypt_sized p plain size s
        ≡ ok (
          (encrypt plain (size + 12) s).0,
          (encrypt plain (size + 12) s).1.0 ++ (encrypt plain (size + 12) s).1.1,
          (encrypt plain (size + 12) s).2,
        )
  unfolding encrypt_sized
  encrypt_sized_lem plain size s le =
      let r : ℕ × (Bytes × Bytes) × Session = encrypt plain (size + 12) s in
      let bounds : (length r.1.0 ≡ 12) × (length r.1.1 ≤ length plain + 16) =
        l.encrypt-bounded plain (size + 12) s in
      let stored : poke (replicate 12 0) 0 r.1.0 ≡ ok r.1.0 =
        simp append-nil at (poke_at [] (replicate 12 0) [] r.1.0 0 refl (sym bounds.0)) in
      let (b1, b2, first, second, front) =
        encrypt_writes (replicate (size + 12) 0) r.1.0 r.1.1 bounds.0
          (omega (arith, bounds.1, length-replicate {A = ℕ} (size + 12) 0)) in
      rw (stored, first, second, front) refl

  -- The shape that both functions have around their last part.
  after_init :
      (i : ℕ × Session) (a : ℕ × ℕ × Session) (m : Run (ℕ × Bytes × Session)) (Q : Bytes → Type 0)
      → (i.0 ≡ 0 → a.0 ≡ 0 → Outcome m (λ r. r.0 ≡ 0 → Q r.1))
      → Outcome
          (if i.0 == 0 then if a.0 == 0 then m else ok (a.0, [], a.2) else init_failed p i.0 i.1)
          (λ r. r.0 ≡ 0 → Q r.1)
  unfolding init_failed
  after_init (i, s) (rv, size, s2) m Q h = elim (Bool-cases (i == 0)) [
    | inl begun ↦ elim (Bool-cases (rv == 0)) [
      | inl sized ↦ rw (begun, sized) (h (ground (arith, begun)) (ground (arith, sized)))
      | inr failed ↦
          rw (begun, failed) (inr ((rv, [], s2), refl, λ e. absurd (ground (arith, failed, e))))
    ]
    | inr failed ↦ elim (Bool-cases (i == 130)) [
      | inl out ↦ inl (rw (failed, out) refl)
      | inr other ↦
          inr ((i, [], s), rw (failed, other) refl, λ e. absurd (ground (arith, failed, e)))
    ]
  ]

  -- hsm_aes_encrypt never reads or writes outside its buffers: it ends the process or returns, and
  -- where it returns CKR_OK its output is the iv and the text sealed under it.
  pub hsm_aes_encrypt-Sealed :
      (handle : ℕ) (plain : Bytes) (s : Session)
      → Outcome (hsm_aes_encrypt p handle plain s) (λ r. r.0 ≡ 0 → Sealed handle plain r.1)
  unfolding hsm_aes_encrypt init_failed
  hsm_aes_encrypt-Sealed handle plain s =
      let i : ℕ × Session = encrypt_init handle s in
      let a : ℕ × ℕ × Session = encrypt_size plain i.1 in
      let r : ℕ × (Bytes × Bytes) × Session = encrypt plain (a.1 + 12) a.2 in
      after_init i a _ (Sealed handle plain) (λ begun sized. inr (
        (r.0, r.1.0 ++ r.1.1, r.2),
        encrypt_sized_lem plain a.1 a.2 (l.encrypt_size-enough plain i.1 sized),
        λ done. (
          r.1.0,
          (l.encrypt-bounded plain (a.1 + 12) a.2).0,
          ap (λ t. r.1.0 ++ t)
              (l.encrypt-seal handle plain (a.1 + 12) a.2
                (l.encrypt_size-Encrypting handle plain i.1
                  (l.encrypt_init-Encrypting handle s begun) sized)
                done),
        ),
      ))

  decrypt_sized_lem :
      (alloc : ℕ → Bytes) (handle : ℕ) (iv plain : Bytes) (size : ℕ) (s : Session)
      → ((n : ℕ) → length (alloc n) ≡ n)
      → l.Decrypting handle iv s
      → Outcome
          (decrypt_sized p alloc (l.seal handle iv plain) size s)
          (λ r. r.0 ≡ 0 → (rest : Bytes) × (r.1 ≡ plain ++ rest))
  unfolding decrypt_sized
  decrypt_sized_lem alloc handle iv plain size s h_alloc h =
      let text : Bytes = l.seal handle iv plain in
      let r : ℕ × Bytes × Session = decrypt text size s in
      let bounded : length r.1 ≤ size = l.decrypt-bounded text size s in
      let (tail, stored, total) =
        front_write (alloc (size + 1)) r.1 (omega (arith, bounded, h_alloc (size + 1))) in
      elim (Bool-cases (r.0 == 0)) [
        | inl done ↦
            let out : r.1 ≡ plain =
              l.decrypt-seal handle iv plain size s h (ground (arith, done)) in
            let (rest, buf, ended, front) =
              end_write r.1 tail size bounded (omega (arith, total, h_alloc (size + 1))) in
            inr (
              (r.0, take size buf, r.2),
              rw (stored, done, ended) refl,
              λ e. (rest, front ∙ ap (λ t. t ++ rest) out),
            )
        | inr failed ↦
            inr ((r.0, [], r.2), rw (stored, failed) refl, λ e. absurd (ground (arith, failed, e)))
      ]

  hsm_aes_decrypt-Sealed :
      (alloc : ℕ → Bytes) (handle : ℕ) (plain wrapped : Bytes) (s : Session)
      → ((n : ℕ) → length (alloc n) ≡ n)
      → Sealed handle plain wrapped
      → Outcome
          (hsm_aes_decrypt p alloc handle wrapped s)
          (λ r. r.0 ≡ 0 → (rest : Bytes) × (r.1 ≡ plain ++ rest))
  unfolding hsm_aes_decrypt init_failed
  hsm_aes_decrypt-Sealed alloc handle plain wrapped s h_alloc (iv, h12, is) =
      let text : Bytes = l.seal handle iv plain in
      let i : ℕ × Session = decrypt_init handle iv s in
      let a : ℕ × ℕ × Session = decrypt_size text i.1 in
      rw (is, peek_at [] iv text 0 12 refl (sym h12), drop-append 12 iv text (sym h12))
        (after_init i a _ (λ out. (rest : Bytes) × (out ≡ plain ++ rest))
          (λ begun sized. decrypt_sized_lem alloc handle iv plain a.1 a.2 h_alloc (
            l.decrypt_size-Decrypting handle iv text i.1
              (l.decrypt_init-Decrypting handle iv s begun) sized)))

  -- The three calls of hsm_aes_decrypt return CKR_OK.
  pub record Accepted (handle : ℕ) (wrapped : Bytes) (s : Session) : Type 0 where
    pub begun : (decrypt_init handle (take 12 wrapped) s).0 ≡ 0
    pub sized : (decrypt_size (drop 12 wrapped) (decrypt_init handle (take 12 wrapped) s).1).0 ≡ 0
    pub decrypted :
        (decrypt
          (drop 12 wrapped)
          (decrypt_size (drop 12 wrapped) (decrypt_init handle (take 12 wrapped) s).1).1
          (decrypt_size (drop 12 wrapped) (decrypt_init handle (take 12 wrapped) s).1).2).0
        ≡ 0

  decrypt_sized-done :
      (alloc : ℕ → Bytes) (handle : ℕ) (iv plain : Bytes) (size : ℕ) (s : Session)
      → ((n : ℕ) → length (alloc n) ≡ n)
      → l.Decrypting handle iv s
      → (decrypt (l.seal handle iv plain) size s).0 ≡ 0
      → (rest : Bytes) × (s' : Session) × (decrypt_sized p alloc (l.seal handle iv plain) size s
          ≡ ok (0, plain ++ rest, s'))
  unfolding decrypt_sized
  decrypt_sized-done alloc handle iv plain size s h_alloc h done =
      let r : ℕ × Bytes × Session = decrypt (l.seal handle iv plain) size s in
      let bounded : length r.1 ≤ size = l.decrypt-bounded (l.seal handle iv plain) size s in
      let (tail, stored, total) =
        front_write (alloc (size + 1)) r.1 (omega (arith, bounded, h_alloc (size + 1))) in
      let (rest, buf, ended, front) =
        end_write r.1 tail size bounded (omega (arith, total, h_alloc (size + 1))) in
      let out : r.1 ≡ plain = l.decrypt-seal handle iv plain size s h done in
      (
        rest,
        r.2,
        rw (stored, done, ended) (ap (λ t. ok (0, t, r.2)) (front ∙ ap (λ t. t ++ rest) out)),
      )

  hsm_aes_decrypt-Accepted :
      (alloc : ℕ → Bytes) (handle : ℕ) (plain wrapped : Bytes) (s : Session)
      → ((n : ℕ) → length (alloc n) ≡ n)
      → Sealed handle plain wrapped
      → Accepted handle wrapped s
      → (rest : Bytes) × (s' : Session) × (hsm_aes_decrypt p alloc handle wrapped s
          ≡ ok (0, plain ++ rest, s'))
  unfolding hsm_aes_decrypt
  hsm_aes_decrypt-Accepted alloc handle plain wrapped s h_alloc (iv, h12, is) c =
      let text : Bytes = l.seal handle iv plain in
      let front : take 12 wrapped ≡ iv = ap (take 12) is ∙ take-append 12 iv text (sym h12) in
      let back : drop 12 wrapped ≡ text = ap (drop 12) is ∙ drop-append 12 iv text (sym h12) in
      let i : ℕ × Session = decrypt_init handle iv s in
      let a : ℕ × ℕ × Session = decrypt_size text i.1 in
      let begun : i.0 ≡ 0 = rw front at c.begun in
      let sized : a.0 ≡ 0 = rw (front, back) at c.sized in
      let done : (decrypt text a.1 a.2).0 ≡ 0 = rw (front, back) at c.decrypted in
      let (rest, s', made) =
        decrypt_sized-done alloc handle iv plain a.1 a.2 h_alloc
          (l.decrypt_size-Decrypting handle iv text i.1
            (l.decrypt_init-Decrypting handle iv s begun) sized)
          done in
      (
        rest,
        s',
        rw
            (
              is,
              peek_at [] iv text 0 12 refl (sym h12),
              drop-append 12 iv text (sym h12),
              begun,
              sized,
            )
            made,
      )

  -- What hsm_aes_encrypt returned with CKR_OK, hsm_aes_decrypt under the same handle, in whatever
  -- session, takes back where the module's three calls return CKR_OK: it returns CKR_OK and an output
  -- that begins with the text that was wrapped. Allocated buffers have the size asked for.
  pub hsm_aes_decrypt-hsm_aes_encrypt :
      (alloc : ℕ → Bytes) (handle : ℕ) (plain wrapped : Bytes) (s s1 s2 : Session)
      → ((n : ℕ) → length (alloc n) ≡ n)
      → hsm_aes_encrypt p handle plain s ≡ ok (0, wrapped, s1)
      → Accepted handle wrapped s2
      → (rest : Bytes) × (s3 : Session) × (hsm_aes_decrypt p alloc handle wrapped s2
          ≡ ok (0, plain ++ rest, s3))
  hsm_aes_decrypt-hsm_aes_encrypt alloc handle plain wrapped s s1 s2 h_alloc h accepted =
      hsm_aes_decrypt-Accepted alloc handle plain wrapped s2 h_alloc
        (outcome_ok (hsm_aes_encrypt-Sealed handle plain s) h refl) accepted

  -- The two functions are a module as the callers rely on it.
  pub hsm_of-HsmLaws :
      (alloc : ℕ → Bytes) → ((n : ℕ) → length (alloc n) ≡ n) → HsmLaws (hsm_of p alloc)
  unfolding hsm_of
  hsm_of-HsmLaws alloc h_alloc = record {
    Wrapped = Sealed;
    encrypt-Wrapped =
        λ handle plain out s s' h. outcome_ok (hsm_aes_encrypt-Sealed handle plain s) h refl;
    decrypt-Wrapped = λ handle plain wrapped out s s' sealed h.
        outcome_ok (hsm_aes_decrypt-Sealed alloc handle plain wrapped s h_alloc sealed) h refl;
    length-Wrapped = λ handle plain wrapped sealed. omega (
      arith,
      sealed.1,
      ap length sealed.2,
      length-append sealed.0 (l.seal handle sealed.0 plain),
    );
  }
