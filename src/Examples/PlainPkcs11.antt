-- ===== src/Examples/PlainPkcs11.antt =====
-- A PKCS#11 module that appends sixteen bytes, and says that a decryption takes a byte more than it
-- does.
use quicke_r.Prelude.{
  ℕ, ◌+◌, ◌-◌, ◌≤◌, ◌≡◌, refl, false, [], ◌++◌, Bytes, length, length-append, take, take-append,
  replicate, leb, leb→le, Bool-cases, inl, inr, if◌then◌else◌, arith,
}
use quicke_r.Hsm.Pkcs11.{Pkcs11, Pkcs11Laws}

abbrev pub sealed_text : Bytes → Bytes
sealed_text m = m ++ replicate 16 9

abbrev pub opened_text : Bytes → Bytes
opened_text c = take (length c - 16) c

-- 336 is CKR_BUFFER_TOO_SMALL.
abbrev pub appending_pkcs11 : Pkcs11
appending_pkcs11 = record {
  Session = ℕ;
  encrypt_init = λ handle s. (0, s);
  encrypt_size = λ plain s. (0, length plain + 16, s);
  encrypt = λ plain room s. (0, (replicate 12 4, sealed_text plain), s);
  decrypt_init = λ handle iv s. (0, s);
  decrypt_size = λ text s. (0, length text - 15, s);
  decrypt = λ text room s.
      if leb (length (opened_text text)) room then (0, opened_text text, s) else (336, [], s);
  generate_key = λ s. (0, 5, s);
  destroy_object = λ handle s. s;
  reset = λ s. s;
}

pub bounded_decrypt :
    (text : Bytes) (room s : ℕ) → length (appending_pkcs11.decrypt text room s).1 ≤ room
bounded_decrypt text room s = elim (Bool-cases (leb (length (opened_text text)) room)) [
  | inl fits ↦ rw fits (leb→le _ _ fits)
  | inr short ↦ rw short (omega arith)
]

refused :
    (text : Bytes) (room s : ℕ)
    → leb (length (opened_text text)) room ≡ false
    → (appending_pkcs11.decrypt text room s).0 ≡ 336
refused text room s h = rw h refl

pub decrypt_back :
    (m : Bytes) (room s : ℕ)
    → (appending_pkcs11.decrypt (sealed_text m) room s).0 ≡ 0
    → (appending_pkcs11.decrypt (sealed_text m) room s).1 ≡ m
decrypt_back m room s h =
    let back : opened_text (sealed_text m) ≡ m =
      take-append _ m (replicate 16 9) (omega (arith, length-append m (replicate 16 9))) in
    elim (Bool-cases (leb (length (opened_text (sealed_text m))) room)) [
      | inl fits ↦ rw fits back
      | inr short ↦ absurd (omega (arith, h, refused (sealed_text m) room s short))
    ]

abbrev pub appending_pkcs11_laws : Pkcs11Laws appending_pkcs11
appending_pkcs11_laws = record {
  seal = λ handle iv m. sealed_text m;
  Encrypting = λ handle s. Unit;
  Decrypting = λ handle iv s. Unit;
  encrypt_init-Encrypting = λ handle s h. tt;
  encrypt_size-enough = λ plain s h. omega arith;
  encrypt_size-Encrypting = λ handle plain s h k. tt;
  encrypt-bounded = λ plain room s. (refl, omega (arith, length-append plain (replicate 16 9)));
  encrypt-seal = λ handle plain room s h k. refl;
  decrypt_init-Decrypting = λ handle iv s h. tt;
  decrypt_size-Decrypting = λ handle iv text s h k. tt;
  decrypt-bounded = bounded_decrypt;
  decrypt-seal = λ handle iv plain room s h k. decrypt_back plain room s k;
}
