-- ===== src/Examples/CryptoRuns.antt =====
-- The wrappers of EVP: their theorems at small inputs.
use quicke_r.Prelude.{◌≡◌, refl, some, none, [], ◌++◌, Bytes, replicate, codes, same, if◌then◌else◌}
use quicke_r.Memory.{ok}
use quicke_r.Crypto.Gcm.{gcm_encrypt_2, gcm_encrypt_4, gcm_decrypt}
use quicke_r.Crypto.Gcm.Whole.{gcm_encrypt_2-region, gcm_encrypt_4-region}
use quicke_r.Crypto.Gcm.Open.{gcm_decrypt_lem}
use quicke_r.Crypto.Ctr.{prg_aes_ctr}
use quicke_r.Crypto.Ctr.Laws.{pad, prg_aes_ctr_lem}
use quicke_r.Examples.PlainEvp.{plain, plain_laws}

abbrev key : Bytes
key = replicate 16 1

abbrev iv : Bytes
iv = replicate 16 2

abbrev sealed : Bytes → Bytes
sealed text = plain_laws.seal key iv text

abbrev tag_of : Bytes → Bytes
tag_of text = plain_laws.tag_of key iv text

gcm_encrypt_2-region_example :
    gcm_encrypt_2 plain
      (codes "ab")
      (codes "c")
      key
      iv
      16
      (codes "!" ++ (codes "xyz" ++ codes "?"))
      1
    ≡ ok (record {
      ciphertext_len = 3;
      buffer = codes "!" ++ (sealed (codes "abc") ++ codes "?");
      tag = tag_of (codes "abc");
    })
gcm_encrypt_2-region_example =
    gcm_encrypt_2-region plain plain_laws key iv (codes "ab") (codes "c") (codes "!") (codes "xyz")
      (codes "?") 1 refl refl refl refl

gcm_encrypt_4-region_example :
    gcm_encrypt_4 plain
      (codes "a")
      (codes "b")
      (codes "c")
      (codes "d")
      key
      iv
      16
      (codes "!" ++ (codes "wxyz" ++ codes "?"))
      1
    ≡ ok (record {
      ciphertext_len = 4;
      buffer = codes "!" ++ (sealed (codes "abcd") ++ codes "?");
      tag = tag_of (codes "abcd");
    })
gcm_encrypt_4-region_example =
    gcm_encrypt_4-region plain plain_laws key iv (codes "a") (codes "b") (codes "c") (codes "d")
      (codes "!") (codes "wxyz") (codes "?") 1 refl refl refl refl

-- A tag that is empty.
gcm_decrypt_example :
    gcm_decrypt plain (codes "abc") [] key iv 16 (codes "!" ++ (codes "xyz" ++ codes "?")) 1
    ≡ ok (
      (if same [] (tag_of (plain_laws.unseal key iv (codes "abc"))) then some 3 else none),
      codes "!" ++ (plain_laws.unseal key iv (codes "abc") ++ codes "?"),
    )
gcm_decrypt_example =
    gcm_decrypt_lem plain plain_laws key iv (codes "abc") [] (codes "!") (codes "xyz") (codes "?") 1
      refl refl refl refl

prg_aes_ctr_example :
    prg_aes_ctr plain (codes "!" ++ (codes "xyz" ++ codes "?")) 1 key 3
    ≡ ok (some 3, codes "!" ++ (pad plain plain_laws key 3 ++ codes "?"))
prg_aes_ctr_example =
    prg_aes_ctr_lem plain plain_laws key (codes "!") (codes "xyz") (codes "?") 1 3 refl refl refl
