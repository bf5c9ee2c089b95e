-- ===== src/Server/Update/Recode.antt =====
-- What up_update computes between its critical sections from a token that AE_ReKeyGen made.
use quicke_r.Prelude.{
  ◌≤◌, le→ltb, ℕ, none, ◌/◌, suc, ◌+◌, ◌*◌, ◌-◌, ◌<◌, ◌^◌, ◌≡◌, ◌==◌, false, refl, sym, ◌∙◌, some,
  Option, [], append-nil, Bytes, length, arith,
}
use quicke_r.Memory.{Run, ok, ◌>>=◌, peek}
use quicke_r.Memory.Regions.{peek_at}
use quicke_r.Crypto.Evp.{Evp, EvpLaws}
use quicke_r.Nested.Layout.{layer_size, AeKey, CtHatDataEn, DeltaToken, hat_bytes, delta_bytes}
use quicke_r.Nested.Token.{delta_of_bytes-delta_bytes}
use quicke_r.Nested.Decrypt.{key_and}
use quicke_r.Nested.Layers.{Holds}
use quicke_r.Nested.Update.{RekeyDraws, ae_rekeygen}
use quicke_r.Nested.Update.Rekey.{IsDrawn}
use quicke_r.Nested.Update.Sizes.{length-hat_of}
use quicke_r.Nested.Update.Law.{Updated, update-Holds}
use quicke_r.Nested.Chain.Law.{length-Holds}
use quicke_r.Server.Update.{Base64, Request, Snapshot, Recoded, reencrypted, with_header, recode}

unfoldable pub base64_size : ℕ → ℕ
base64_size n = 4 * ((n + 2) / 3)

-- All bytes but none are encoded, four characters for three bytes, and decode to what they were. Of no
-- bytes BIO_write writes none, and base64_enc gives NULL.
pub record IsFaithful (b : Base64) : Type 0 where
  pub text : Bytes → Bytes
  pub empty : b.enc [] ≡ none
  pub size : (x : Bytes) → 1 ≤ length x → length (text x) ≡ base64_size (length x)
  pub encodes : (x : Bytes) → 1 ≤ length x → b.enc x ≡ some (text x)
  pub decodes : (x : Bytes) → 1 ≤ length x → b.dec (text x) ≡ some x

-- The snapshot and the request hold the encodings of a header, a ciphertext and a token.
pub record Holding (b : Base64) (q : Request) (s : Snapshot) (hat : CtHatDataEn) (ct : Bytes)
    (token : DeltaToken) : Type 0 where
  pub header_text : Bytes
  pub data_text : Bytes
  pub header_is : s.header ≡ some header_text
  pub data_is : s.ciphertext ≡ some data_text
  pub header_decodes : b.dec header_text ≡ some (hat_bytes hat)
  pub data_decodes : b.dec data_text ≡ some ct
  pub delta_decodes : b.dec q.delta ≡ some (delta_bytes token)

module _ {e : Evp} (l : EvpLaws e) (b : Base64) (f : IsFaithful b) where
  hat_size :
      {key : Bytes} {hat : CtHatDataEn} {ct m : Bytes} {n room : ℕ}
      → Holds l key hat ct m n room
      → length (hat_bytes hat) ≡ 84
  hat_size {key} h = rw h.hat_is (length-hat_of l key h.hat_iv h.meta h.well_formed h.hat_iv_16)

  reencrypted_made :
      (d : RekeyDraws) (iv : Bytes) (key1 key2 : AeKey) (hat hat2 : CtHatDataEn) (ct : Bytes)
      (alloc : ℕ → Bytes) (m : Bytes) (n room : ℕ) (data_text : Bytes)
      (made : Updated l d iv key1 key2 hat hat2 ct (alloc (length ct)) m n room)
      → b.dec data_text ≡ some ct
      → 32 ≤ length ct
      → length ct - 32 ≡ length m + layer_size * n + 96 + room
      → 1 ≤ length made.new_ct
      → reencrypted e b iv hat2 alloc made.delta data_text ≡ ok (made.new_hat, f.text made.new_ct)
  unfolding reencrypted
  reencrypted_made d iv key1 key2 hat hat2 ct alloc m n room data_text made decodes enough asked
        some_ct =
      rw
        (
          reencrypted,
          decodes,
          ◌>>=◌,
          le→ltb (length ct) 32 enough,
          asked,
          made.reencrypted,
          ◌>>=◌,
          f.encodes made.new_ct some_ct,
        )
        refl

  pub recode_made :
      (d : RekeyDraws) (iv : Bytes) (key1 key2 : AeKey) (hat hat2 : CtHatDataEn) (ct : Bytes)
      (alloc : ℕ → Bytes) (m : Bytes) (n room : ℕ) (q : Request) (s : Snapshot)
      (made : Updated l d iv key1 key2 hat hat2 ct (alloc (length ct)) m n room)
      → Holding b q s hat ct made.delta
      → length (hat_bytes hat) ≡ length (hat_bytes made.new_hat)
      → 32 ≤ length ct
      → 1 ≤ length (hat_bytes made.new_hat)
      → 1 ≤ length made.new_ct
      → length ct - 32 ≡ length m + layer_size * n + 96 + room
      → recode e b iv hat2 alloc q s
        ≡ ok (
            some (record {
              new_header = f.text (hat_bytes made.new_hat);
              new_ciphertext = f.text made.new_ct;
            }))
  unfolding recode with_header
  recode_made d iv key1 key2 hat hat2 ct alloc m n room q s made h same_size enough some_header
        some_ct asked =
      let whole : peek (hat_bytes made.new_hat) 0 (length (hat_bytes made.new_hat))
          ≡ ok (hat_bytes made.new_hat) =
        let read =
          peek_at [] (hat_bytes made.new_hat) [] 0 (length (hat_bytes made.new_hat)) refl refl in
        simp append-nil at read in
      let out =
        reencrypted_made d iv key1 key2 hat hat2 ct alloc m n room h.data_text made h.data_decodes
          enough asked some_ct in
      rw
        (
          recode,
          h.header_is,
          ◌>>=◌,
          h.data_is,
          ◌>>=◌,
          h.delta_decodes,
          ◌>>=◌,
          delta_of_bytes-delta_bytes made.delta made.is_token,
          ◌>>=◌,
          out,
          ◌>>=◌,
          h.header_decodes,
          same_size,
          whole,
          ◌>>=◌,
          f.encodes (hat_bytes made.new_hat) some_header,
        )
        refl

  -- When the snapshot decodes to a header and a ciphertext that hold a message with room for one
  -- more layer, and the request to the token that AE_ReKeyGen made for it, the server's part of an
  -- update returns texts that decode to a header and a ciphertext that hold the same message under
  -- the new key, with one layer more. The draws have 16 bytes, the history key is not zero, the
  -- length fits an int, allocated buffers have the size asked for, and base64 is faithful.
  pub recode-Holds :
      (d : RekeyDraws) (iv : Bytes) (key1 key2 : AeKey) (hat hat2 : CtHatDataEn) (ct : Bytes)
      (alloc : ℕ → Bytes) (m : Bytes) (n room : ℕ) (q : Request) (s : Snapshot) (token : DeltaToken)
      → IsDrawn d
      → length iv ≡ 16
      → length key2.key ≡ 16
      → (key_and d.history_key == 0) ≡ false
      → Holds l key1.key hat ct m n (room + 96)
      → length m + layer_size * n + 96 < 2 ^ 31
      → ((k : ℕ) → length (alloc k) ≡ k)
      → ae_rekeygen e d key1 key2 hat ≡ ok (some token)
      → Holding b q s hat ct token
      → (c : Recoded) × (hat' : CtHatDataEn) × (ct' : Bytes) × (recode e b iv hat2 alloc q s
          ≡ ok (some c))
        × (b.dec c.new_header ≡ some (hat_bytes hat'))
        × (b.dec c.new_ciphertext ≡ some ct')
        × Holds l key2.key hat' ct' m (suc n) room
  recode-Holds d iv key1 key2 hat hat2 ct alloc m n room q s token hd hi hk z holds fits sized
        rekeyed holding =
      let size = length-Holds l holds in
      let made =
        update-Holds l d iv key1 key2 hat hat2 ct (alloc (length ct)) m n room hd hi hk z holds fits
          (omega (arith, sized (length ct))) in
      let same_ok : ◌≡◌ {A = Run (Option DeltaToken)} (ok (some token)) (ok (some made.delta)) =
        sym rekeyed ∙ made.rekeyed in
      let same_token : token ≡ made.delta = cc in
      let some_header : 1 ≤ length (hat_bytes made.new_hat) = omega (arith, hat_size made.holds) in
      let some_ct : 1 ≤ length made.new_ct = omega (arith, length-Holds l made.holds) in
      (
        record {
          new_header = f.text (hat_bytes made.new_hat);
          new_ciphertext = f.text made.new_ct;
        },
        made.new_hat,
        made.new_ct,
        recode_made d iv key1 key2 hat hat2 ct alloc m n room q s made (rw same_token at holding)
            (hat_size holds ∙ sym (hat_size made.holds)) (omega arith) some_header some_ct
            (omega arith),
        f.decodes (hat_bytes made.new_hat) some_header,
        f.decodes made.new_ct some_ct,
        made.holds,
      )
