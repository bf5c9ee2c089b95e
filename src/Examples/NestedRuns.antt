-- ===== src/Examples/NestedRuns.antt =====
-- Updatable encryption: the theorems at a message of three bytes.
use quicke_r.Prelude.{
  ℕ, ◌+◌, ◌≡◌, refl, some, true, ◌==◌, [], ◌∷◌, ◌++◌, Bytes, replicate, arith, codes,
}
use quicke_r.Nested.Decrypt.{success, decrypt_last_step}
use quicke_r.Nested.Decrypt.LastStep.{decrypt_last_step_lem}
use quicke_r.Nested.Layers.{core, payload_of, history_of, hat_of}
use quicke_r.Crypto.Ctr.Laws.{pad}
use quicke_r.Nested.Update.{ae_rekeygen, ae_reencrypt}
use quicke_r.Nested.Update.Reencrypt.{ae_reencrypt_lem}
use quicke_r.Nested.Update.Rekey.{new_meta, delta_of, ae_rekeygen_lem}
use quicke_r.Nested.Encrypt.Law.{first_meta}
use quicke_r.Nested.Layout.{CtHatData, IsMeta, meta_bytes, meta_of_bytes, meta_of_bytes-meta_bytes}
use quicke_r.Memory.{ok}
use quicke_r.Nested.Layout.{AeKey, CtHatDataEn}
use quicke_r.Nested.Encrypt.{EncryptDraws, ae_encrypt, fresh}
use quicke_r.Nested.Encrypt.Law.{ae_encrypt-Holds}
use quicke_r.Nested.Encrypt.Law
use quicke_r.Nested.Decrypt.{ae_decrypt, key_and}
use quicke_r.Nested.Decrypt.Law.{ae_decrypt-Holds}
use quicke_r.Nested.Layers.{Holds}
use quicke_r.Nested.Update.Law.{Updated, update-Holds}
use quicke_r.Nested.Chain.{UpdateDraws, IsUpdate, life}
use quicke_r.Nested.Chain.Law.{life-returns-message}
use quicke_r.Examples.PlainEvp.{plain, plain_laws}

abbrev pub message : Bytes
message = codes "abc"

abbrev pub of_byte : ℕ → Bytes
of_byte n = replicate 16 n

abbrev pub owner : AeKey
owner = record { key = of_byte 7; k_t = 1 }

abbrev pub draws : EncryptDraws
draws = record {
  payload_key = of_byte 1;
  payload_iv = of_byte 2;
  prg_seed = of_byte 3;
  hat_iv = of_byte 4;
}

zero_history : (key_and (of_byte 0) == 0) ≡ true
unfolding key_and
zero_history = refl

pub draws-IsDrawn : Law.IsDrawn draws
draws-IsDrawn = record {
  payload_key_16 = refl;
  payload_iv_16 = refl;
  prg_seed_16 = refl;
  hat_iv_16 = refl;
}

abbrev pub next : UpdateDraws
next = record {
  rekey = record {
    history_key = of_byte 5;
    history_iv = of_byte 6;
    payload_key = of_byte 8;
    prg_seed = of_byte 9;
    hat_iv = of_byte 10;
  };
  iv = of_byte 11;
  next_key = record { key = of_byte 12; k_t = 0 };
}

pub next-IsUpdate : IsUpdate next
unfolding key_and
next-IsUpdate = record {
  rekey_ok = record {
    history_key_16 = refl;
    history_iv_16 = refl;
    payload_key_16 = refl;
    prg_seed_16 = refl;
    hat_iv_16 = refl;
  };
  iv_16 = refl;
  key_16 = refl;
  history_ne_zero = refl;
}

-- The message as AE_Encrypt leaves it, with room for one update.
abbrev pub held :
    (hat : CtHatDataEn) × (ct : Bytes) × (ae_encrypt plain draws owner (message ++ []) (fresh 131) 3
      ≡ ok (hat, ct))
    × Holds plain_laws owner.key hat ct message 0 96
held =
    ae_encrypt-Holds plain_laws draws owner message [] (fresh 131) draws-IsDrawn refl (omega arith)
      refl

abbrev old : CtHatData
old = first_meta plain_laws draws 3

old-IsMeta : IsMeta old
old-IsMeta = record { seed_16 = refl; payload_16 = refl; history_16 = refl; fits = omega arith }

ae_encrypt-Holds_example :
    (hat : CtHatDataEn) × (ct : Bytes) × (ae_encrypt plain draws owner (message ++ []) (fresh 131) 3
      ≡ ok (hat, ct))
    × Holds plain_laws owner.key hat ct message 0 96
ae_encrypt-Holds_example =
    ae_encrypt-Holds plain_laws draws owner message [] (fresh 131) draws-IsDrawn refl (omega arith)
      refl

life-returns-message_example :
    life plain draws owner message (next ∷ []) (codes "xyz!") ≡ ok (codes "abc!")
life-returns-message_example =
    life-returns-message plain_laws draws owner message (codes "xyz") (codes "!") (next ∷ [])
      draws-IsDrawn refl (next-IsUpdate, tt) (omega arith) (omega arith) refl

update-Holds_example :
    Updated plain_laws next.rekey next.iv owner next.next_key held.0 held.0 held.1
      (fresh 131)
      message
      0
      0
update-Holds_example =
    update-Holds plain_laws next.rekey next.iv owner next.next_key held.0 held.0 held.1 (fresh 131)
      message 0 0 next-IsUpdate.rekey_ok refl refl next-IsUpdate.history_ne_zero held.3
      (omega arith) refl

ae_decrypt-Holds_example :
    ae_decrypt plain owner held.0 held.1 (codes "xyz" ++ codes "!") (3 + 0 + 96)
    ≡ ok (message ++ codes "!")
ae_decrypt-Holds_example =
    ae_decrypt-Holds plain_laws owner held.0 held.1 message (codes "xyz") (codes "!") 0 96 held.3
      refl

decrypt_last_step_example :
    decrypt_last_step plain 1
      (payload_of plain_laws (of_byte 1) (of_byte 2) message ++ [])
      (of_byte 1)
      (of_byte 0)
      3
      (codes "xyz" ++ codes "!")
      (fresh 3)
    ≡ ok (success, message ++ codes "!")
decrypt_last_step_example =
    decrypt_last_step_lem plain_laws (core (of_byte 2) refl refl refl zero_history refl) 1 3 []
      (codes "xyz") (codes "!") (fresh 3) (omega arith) refl refl (omega arith)

ae_rekeygen_example :
    ae_rekeygen plain next.rekey owner next.next_key (hat_of plain_laws owner.key draws.hat_iv old)
    ≡ ok (some (delta_of plain_laws next.rekey old next.next_key.key))
ae_rekeygen_example =
    ae_rekeygen_lem plain_laws next.rekey owner next.next_key draws.hat_iv old
      next-IsUpdate.rekey_ok refl refl refl old-IsMeta (omega arith)

meta_of_bytes-meta_bytes_example : meta_of_bytes (meta_bytes old) ≡ ok old
meta_of_bytes-meta_bytes_example = meta_of_bytes-meta_bytes old old-IsMeta

ae_reencrypt_example :
    ae_reencrypt plain next.iv
      (delta_of plain_laws next.rekey old (of_byte 12))
      (replicate 35 9 ++ [])
      held.0
      (fresh 131)
      (3 + 96 + 0)
    ≡ ok (record {
      ret = some (3 + 96 + 0);
      hat = hat_of plain_laws (of_byte 12) next.rekey.hat_iv (new_meta next.rekey 3);
      ciphertext =
          payload_of plain_laws next.rekey.payload_key next.iv (
            replicate 35 9
            ++ history_of plain_laws next.rekey.history_key next.rekey.history_iv old.payload_key
                old.history_key)
          ++ pad plain plain_laws next.rekey.prg_seed 0;
    })
ae_reencrypt_example =
    ae_reencrypt_lem plain_laws next.rekey next-IsUpdate.rekey_ok old old-IsMeta (of_byte 12)
      next.iv (replicate 35 9) [] 0 refl refl held.0 (fresh 131) refl
