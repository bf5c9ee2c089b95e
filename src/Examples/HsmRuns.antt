-- ===== src/Examples/HsmRuns.antt =====
-- Wrapping and unwrapping a key, and the counters, at small inputs.
use quicke_r.Prelude.{ℕ, ◌≡◌, refl, ◌++◌, Bytes, codes, replicate, length-replicate}
use quicke_r.Memory.{ok, poke, put_front, overwrite}
use quicke_r.Memory.Binds.{Outcome}
use quicke_r.Hsm.Wrap.{hsm_aes_encrypt, encrypt_sized, hsm_aes_decrypt}
use quicke_r.Hsm.RoundTrip.{Sealed, hsm_aes_encrypt-Sealed, hsm_aes_decrypt-hsm_aes_encrypt}
use quicke_r.Examples.PlainPkcs11.{appending_pkcs11, appending_pkcs11_laws}

abbrev key_text : Bytes
key_text = codes "sixteen"

abbrev wrapped_text : Bytes
wrapped_text = replicate 12 4 ++ (key_text ++ replicate 16 9)

wraps : hsm_aes_encrypt appending_pkcs11 5 key_text 0 ≡ ok (0, wrapped_text, 0)
unfolding hsm_aes_encrypt encrypt_sized poke put_front overwrite
wraps = refl

abbrev sized : ℕ → Bytes
sized n = replicate n 0

hsm_aes_encrypt-Sealed_example :
    Outcome
      (hsm_aes_encrypt appending_pkcs11 5 key_text 0)
      (λ r. r.0 ≡ 0 → Sealed appending_pkcs11 appending_pkcs11_laws 5 key_text r.1)
hsm_aes_encrypt-Sealed_example =
    hsm_aes_encrypt-Sealed appending_pkcs11 appending_pkcs11_laws 5 key_text 0

hsm_aes_decrypt-hsm_aes_encrypt_example :
    (rest : Bytes) × (s : ℕ) × (hsm_aes_decrypt appending_pkcs11 sized 5 wrapped_text 0
      ≡ ok (0, key_text ++ rest, s))
hsm_aes_decrypt-hsm_aes_encrypt_example =
    hsm_aes_decrypt-hsm_aes_encrypt appending_pkcs11 appending_pkcs11_laws sized 5 key_text
      wrapped_text 0 0 0 (λ n. length-replicate n 0) wraps
      (record { begun = refl; sized = refl; decrypted = refl })
