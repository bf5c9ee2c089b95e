-- ===== src/Examples/RecodeRuns.antt =====
-- The server's part of an update, on the message of NestedRuns.
use quicke_r.Prelude.{ℕ, ◌≡◌, refl, ap, some, [], Bytes, length-replicate, arith}
use quicke_r.Memory.{ok}
use quicke_r.Nested.Layout.{CtHatDataEn, hat_bytes, delta_bytes}
use quicke_r.Nested.Encrypt.{fresh}
use quicke_r.Nested.Layers.{Holds}
use quicke_r.Nested.Update.Law.{Updated, update-Holds}
use quicke_r.Server.Update.{Request, Snapshot, Recoded, recode}
use quicke_r.Server.Update.Recode.{recode-Holds}
use quicke_r.Examples.PlainEvp.{plain, plain_laws}
use quicke_r.Examples.PlainWire.{shifted, shifted_faithful, grouped, back_there}
use quicke_r.Examples.NestedRuns.{message, owner, next, next-IsUpdate, held}

abbrev made :
    Updated plain_laws next.rekey next.iv owner next.next_key held.0 held.0 held.1
      (fresh 131)
      message
      0
      0
made =
    update-Holds plain_laws next.rekey next.iv owner next.next_key held.0 held.0 held.1 (fresh 131)
      message 0 0 next-IsUpdate.rekey_ok refl refl next-IsUpdate.history_ne_zero held.3
      (omega arith) refl

abbrev request : Request
request = record {
  wrap_id = [];
  header_id = [];
  data_id = [];
  version_id = [];
  new_wrap = [];
  delta = grouped (delta_bytes made.delta);
}

abbrev snapshot : Snapshot
snapshot = record {
  version = some [];
  header = some (grouped (hat_bytes held.0));
  ciphertext = some (grouped held.1);
}

recode-Holds_example :
    (c : Recoded) × (hat' : CtHatDataEn) × (ct' : Bytes) × (recode plain shifted next.iv held.0
        fresh request snapshot
      ≡ ok (some c))
    × (shifted.dec c.new_header ≡ some (hat_bytes hat'))
    × (shifted.dec c.new_ciphertext ≡ some ct')
    × Holds plain_laws next.next_key.key hat' ct' message 1 0
recode-Holds_example =
    recode-Holds plain_laws shifted shifted_faithful next.rekey next.iv owner next.next_key held.0
      held.0 held.1 fresh message 0 0 request snapshot made.delta next-IsUpdate.rekey_ok refl refl
      next-IsUpdate.history_ne_zero held.3 (omega arith) (λ k. length-replicate {A = ℕ} k 0)
      made.rekeyed
      (record {
        header_text = grouped (hat_bytes held.0);
        data_text = grouped held.1;
        header_is = refl;
        data_is = refl;
        header_decodes = ap some (back_there (hat_bytes held.0));
        data_decodes = ap some (back_there held.1);
        delta_decodes = ap some (back_there (delta_bytes made.delta));
      })
