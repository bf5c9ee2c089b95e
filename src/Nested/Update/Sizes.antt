-- ===== src/Nested/Update/Sizes.antt =====
-- The sizes of a header's bytes and of a token's fields.
use quicke_r.Prelude.{◌+◌, ◌<◌, ◌^◌, ◌≡◌, ◌++◌, Bytes, length, length-append, arith}
use quicke_r.Crypto.Evp.{Evp, EvpLaws}
use quicke_r.Nested.Layout.{
  CtHatData, IsMeta, hat_bytes, header_bytes, length-meta_bytes, meta_bytes,
}
use quicke_r.Nested.Token.{IsToken}
use quicke_r.Nested.Layers.{hat_of}
use quicke_r.Nested.Update.{RekeyDraws}
use quicke_r.Nested.Update.Rekey.{IsDrawn, new_meta, new_meta-IsMeta, delta_of}

module _ {e : Evp} (l : EvpLaws e) where
  pub length-hat_of :
      (key iv : Bytes) (meta : CtHatData)
      → IsMeta meta
      → length iv ≡ 16
      → length (hat_bytes (hat_of l key iv meta)) ≡ 84
  unfolding hat_bytes header_bytes
  length-hat_of key iv meta hm hi = omega (
    arith,
    length-append (iv ++ l.tag_of key iv (meta_bytes meta)) (l.seal key iv (meta_bytes meta)),
    length-append iv (l.tag_of key iv (meta_bytes meta)),
    l.length-tag_of key iv (meta_bytes meta),
    l.length-seal key iv (meta_bytes meta),
    length-meta_bytes meta hm,
  )

  pub delta_of-IsToken :
      (d : RekeyDraws) (old : CtHatData) (new_key : Bytes)
      → IsDrawn d
      → IsMeta old
      → old.ct_payload_length + 96 < 2 ^ 31
      → IsToken (delta_of l d old new_key)
  delta_of-IsToken d old new_key h hm room =
      let new = new_meta d old.ct_payload_length in
      let old_keys = old.payload_key ++ old.history_key in
      record {
        data_iv_16 = h.hat_iv_16;
        data_tag_16 = l.length-tag_of new_key d.hat_iv (meta_bytes new);
        hat_52 = omega (
          arith,
          l.length-seal new_key d.hat_iv (meta_bytes new),
          length-meta_bytes new (new_meta-IsMeta d old.ct_payload_length h room),
        );
        history_iv_16 = h.history_iv_16;
        history_tag_16 = l.length-tag_of d.history_key d.history_iv old_keys;
        history_32 = omega (
          arith,
          l.length-seal d.history_key d.history_iv old_keys,
          length-append old.payload_key old.history_key,
          hm.payload_16,
          hm.history_16,
        );
        key_16 = h.payload_key_16;
        seed_16 = h.prg_seed_16;
        fits = omega (arith, hm.fits);
      }
