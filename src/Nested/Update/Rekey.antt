-- ===== src/Nested/Update/Rekey.antt =====
-- What AE_ReKeyGen makes of a header.
use quicke_r.Prelude.{ℕ, ◌+◌, ◌^◌, ◌<◌, ◌≡◌, refl, some, [], ◌++◌, append-nil, Bytes, length, arith}
use quicke_r.Memory.{ok}
use quicke_r.Crypto.Evp.{Evp, EvpLaws}
use quicke_r.Crypto.Gcm.{gcm_encrypt_2}
use quicke_r.Crypto.Gcm.Whole.{gcm_encrypt_2-region}
use quicke_r.Nested.Layout.{AeKey, CtHatData, DeltaToken, IsMeta, meta_of_bytes-meta_bytes}
use quicke_r.Nested.Encrypt.{fresh}
use quicke_r.Nested.Decrypt.{has_length}
use quicke_r.Nested.Layers.{hat_of}
use quicke_r.Nested.Hat.{seal_hat, open_hat}
use quicke_r.Nested.Update.{RekeyDraws, ae_rekeygen}

-- Each draw has the length that the code asks RAND_bytes for.
pub record IsDrawn (d : RekeyDraws) : Type 0 where
  pub history_key_16 : length d.history_key ≡ 16
  pub history_iv_16 : length d.history_iv ≡ 16
  pub payload_key_16 : length d.payload_key ≡ 16
  pub prg_seed_16 : length d.prg_seed ≡ 16
  pub hat_iv_16 : length d.hat_iv ≡ 16

-- The header data after an update of a payload of `n` bytes.
abbrev pub new_meta : RekeyDraws → ℕ → CtHatData
new_meta d n = record {
  prg_seed = d.prg_seed;
  payload_key = d.payload_key;
  history_key = d.history_key;
  ct_payload_length = n + 64 + 32;
}

pub new_meta-IsMeta : (d : RekeyDraws) (n : ℕ) → IsDrawn d → n + 96 < 2 ^ 31 → IsMeta (new_meta d n)
new_meta-IsMeta d n h hn = record {
  seed_16 = h.prg_seed_16;
  payload_16 = h.payload_key_16;
  history_16 = h.history_key_16;
  fits = omega arith;
}

module _ {e : Evp} (l : EvpLaws e) where
  open l use {seal, tag_of}

  -- The update token: the new header, the old keys under the new history key, and the new keys.
  abbrev pub delta_of : RekeyDraws → CtHatData → Bytes → DeltaToken
  delta_of d old new_key = record {
    ct_hat_data_header = (hat_of l new_key d.hat_iv (new_meta d old.ct_payload_length)).header;
    ct_hat = (hat_of l new_key d.hat_iv (new_meta d old.ct_payload_length)).body;
    ct_hat_history_header = record {
      iv = d.history_iv;
      tag = tag_of d.history_key d.history_iv (old.payload_key ++ old.history_key);
    };
    ct_hat_history = seal d.history_key d.history_iv (old.payload_key ++ old.history_key);
    len = old.ct_payload_length;
    key_ae = d.payload_key;
    prg_seed = d.prg_seed;
  }

  seal_history :
      (key iv p q : Bytes)
      → length key ≡ 16
      → length iv ≡ 16
      → length p ≡ 16
      → length q ≡ 16
      → gcm_encrypt_2 e p q key iv 16 (fresh 32) 0
        ≡ ok (record {
          ciphertext_len = 32;
          buffer = seal key iv (p ++ q);
          tag = tag_of key iv (p ++ q);
        })
  seal_history key iv p q hk hi hp hq =
      let made = gcm_encrypt_2-region e l key iv p q [] (fresh 32) [] 0 hk hi refl (omega arith) in
      simp (append-nil, hp, hq) at made

  -- From a header that holds a well-formed `old` under the old key, with 16-byte draws, keys and iv
  -- and a new length that fits an `int`, the token is made for the new key.
  pub ae_rekeygen_lem :
      (d : RekeyDraws) (ae_key1 ae_key2 : AeKey) (hat_iv : Bytes) (old : CtHatData)
      → IsDrawn d
      → length ae_key1.key ≡ 16
      → length ae_key2.key ≡ 16
      → length hat_iv ≡ 16
      → IsMeta old
      → old.ct_payload_length + 96 < 2 ^ 31
      → ae_rekeygen e d ae_key1 ae_key2 (hat_of l ae_key1.key hat_iv old)
        ≡ ok (some (delta_of d old ae_key2.key))
  unfolding ae_rekeygen has_length
  ae_rekeygen_lem d ae_key1 ae_key2 hat_iv old h hk1 hk2 hi hm room = rw (
    open_hat l ae_key1.key hat_iv old hk1 hi hm,
    meta_of_bytes-meta_bytes old hm,
    seal_history d.history_key d.history_iv old.payload_key old.history_key h.history_key_16
        h.history_iv_16 hm.payload_16 hm.history_16,
    seal_hat l ae_key2.key d.hat_iv (new_meta d old.ct_payload_length) hk2 h.hat_iv_16
        (new_meta-IsMeta d old.ct_payload_length h room),
  )
