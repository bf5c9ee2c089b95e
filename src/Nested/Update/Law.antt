-- ===== src/Nested/Update/Law.antt =====
-- An update keeps the message: the owner's AE_ReKeyGen and then the server's AE_ReEncrypt.
use quicke_r.Prelude.{
  ℕ, suc, ◌+◌, ◌*◌, ◌^◌, ◌<◌, ◌≡◌, refl, some, false, ◌==◌, ◌++◌, Bytes, length, arith,
}
use quicke_r.Memory.{ok}
use quicke_r.Crypto.Evp.{Evp, EvpLaws}
use quicke_r.Crypto.Ctr.Laws.{pad}
use quicke_r.Nested.Layout.{layer_size, AeKey, CtHatDataEn, DeltaToken}
use quicke_r.Nested.Token.{IsToken}
use quicke_r.Nested.Update.Sizes.{delta_of-IsToken}
use quicke_r.Nested.Decrypt.{key_and}
use quicke_r.Nested.Layers.{Holds, layer, length-Layered, hat_of, payload_of, history_of}
use quicke_r.Nested.Update.{RekeyDraws, ae_rekeygen, ae_reencrypt}
use quicke_r.Nested.Update.Rekey.{IsDrawn, new_meta, new_meta-IsMeta, delta_of, ae_rekeygen_lem}
use quicke_r.Nested.Update.Reencrypt.{ae_reencrypt_lem}

-- What an update gives: the token, and the outputs of the server.
pub record Updated {e : Evp} (l : EvpLaws e) (d : RekeyDraws) (iv : Bytes) (key1 key2 : AeKey)
    (hat hat2 : CtHatDataEn) (ct buf m : Bytes) (n room : ℕ) : Type 0 where
  pub delta : DeltaToken
  pub is_token : IsToken delta
  pub new_hat : CtHatDataEn
  pub new_ct : Bytes
  pub rekeyed : ae_rekeygen e d key1 key2 hat ≡ ok (some delta)
  pub reencrypted :
      ae_reencrypt e iv delta ct hat2 buf (length m + layer_size * n + 96 + room)
      ≡ ok (record {
        ret = some (length m + layer_size * n + 96 + room);
        hat = new_hat;
        ciphertext = new_ct;
      })
  pub holds : Holds l key2.key new_hat new_ct m (suc n) room

module _ {e : Evp} (l : EvpLaws e) where
  -- Given a header and a ciphertext that hold a message under `n` layers with room for one more,
  -- 16-byte draws of which the history key is not zero, a new key, and a buffer of the
  -- ciphertext's own size: both functions return 0 or the length asked for, and their outputs hold
  -- the same message under the new key, with one layer more and 96 bytes of pad fewer.
  pub update-Holds :
      (d : RekeyDraws) (iv : Bytes) (key1 key2 : AeKey) (hat hat2 : CtHatDataEn) (ct buf m : Bytes)
      (n room : ℕ)
      → IsDrawn d
      → length iv ≡ 16
      → length key2.key ≡ 16
      → (key_and d.history_key == 0) ≡ false
      → Holds l key1.key hat ct m n (room + 96)
      → length m + layer_size * n + 96 < 2 ^ 31
      → length buf ≡ 32 + (length m + layer_size * n + 96) + room
      → Updated l d iv key1 key2 hat hat2 ct buf m n room
  update-Holds d iv key1 key2 hat hat2 ct buf m n room h hi hk z holds fits size = record {
    delta = delta_of l d old key2.key;
    is_token = delta_of-IsToken l d old key2.key h holds.well_formed (omega (arith, len));
    new_hat = hat_of l key2.key d.hat_iv (new_meta d old.ct_payload_length);
    new_ct = payload_of l d.payload_key iv text ++ pad e l d.prg_seed room;
    rekeyed = rw holds.hat_is (
        ae_rekeygen_lem l d key1 key2 holds.hat_iv old h holds.key_16 hk holds.hat_iv_16
          holds.well_formed (omega (arith, len)));
    reencrypted =
        rw (holds.ct_is, ← len)
          (ae_reencrypt_lem l d h old holds.well_formed key2.key iv p0
            (pad e l old.prg_seed (room + 96)) room hi (omega (arith, len, size0)) hat2 buf
            (omega (arith, len, size)));
    holds = record {
      meta = new_meta d old.ct_payload_length;
      hat_iv = d.hat_iv;
      payload = payload_of l d.payload_key iv text;
      key_16 = hk;
      hat_iv_16 = h.hat_iv_16;
      well_formed = new_meta-IsMeta d old.ct_payload_length h (omega (arith, len));
      hat_is = refl;
      layers =
          layer iv d.history_iv holds.layers hi h.history_iv_16 h.payload_key_16 h.history_key_16 z
            refl;
      length_is = omega (arith, len);
      ct_is = refl;
    };
  }
    where
      open holds use {meta as old, payload as p0, length_is as len}

      text : Bytes
      text = p0 ++ history_of l d.history_key d.history_iv old.payload_key old.history_key

      size0 : length p0 ≡ 32 + length m + layer_size * n
      size0 = length-Layered l holds.layers
