-- ===== src/Nested/Layers.antt =====
-- What a ciphertext and its header hold: the message under as many layers as there were updates.
use quicke_r.Prelude.{
  ℕ, zero, suc, ◌+◌, ◌*◌, ◌≡◌, ap, ◌++◌, Bytes, length, arith, length-append, ◌==◌, true, false,
}
use quicke_r.Crypto.Evp.{Evp, EvpLaws}
use quicke_r.Crypto.Ctr.Laws.{pad}
use quicke_r.Nested.Layout.{layer_size, CtHatData, CtHatDataEn, IsMeta, meta_bytes}
use quicke_r.Nested.Decrypt.{key_and}

module _ {e : Evp} (l : EvpLaws e) where
  open l use {seal, tag_of}

  -- A header and the encrypted text behind it.
  abbrev pub payload_of : Bytes → Bytes → Bytes → Bytes
  payload_of key iv text = iv ++ (tag_of key iv text ++ seal key iv text)

  -- What an update puts behind the old payload: the header and the text of the encrypted old keys.
  abbrev pub history_of : Bytes → Bytes → Bytes → Bytes → Bytes
  history_of key iv payload_key history_key =
      (iv ++ tag_of key iv (payload_key ++ history_key)) ++ seal key iv (payload_key ++ history_key)

  -- `Layered m n p pk hk`: the payload `p` holds the message `m` under `n` layers and the core, and
  -- opens with the payload key `pk` and the history key `hk`, which is zero at the core alone.
  pub data Layered (m : Bytes) : ℕ → Bytes → Bytes → Bytes → Type 0 where
    core :
        {p pk hk : Bytes} (iv : Bytes)
        → length iv ≡ 16
        → length pk ≡ 16
        → length hk ≡ 16
        → (key_and hk == 0) ≡ true
        → p ≡ payload_of pk iv m
        → Layered m zero p pk hk
    layer :
        {n : ℕ} {p pk hk p0 pk0 hk0 : Bytes} (iv history_iv : Bytes)
        → Layered m n p0 pk0 hk0
        → length iv ≡ 16
        → length history_iv ≡ 16
        → length pk ≡ 16
        → length hk ≡ 16
        → (key_and hk == 0) ≡ false
        → p ≡ payload_of pk iv (p0 ++ history_of hk history_iv pk0 hk0)
        → Layered m (suc n) p pk hk

  pub length-payload_of :
      (key iv text : Bytes) → length iv ≡ 16 → length (payload_of key iv text) ≡ 32 + length text
  length-payload_of key iv text h = omega (
    arith,
    length-append iv (tag_of key iv text ++ seal key iv text),
    length-append (tag_of key iv text) (seal key iv text),
    l.length-tag_of key iv text,
    l.length-seal key iv text,
  )

  pub length-history_of :
      (key iv pk hk : Bytes)
      → length iv ≡ 16
      → length pk ≡ 16
      → length hk ≡ 16
      → length (history_of key iv pk hk) ≡ 64
  length-history_of key iv pk hk hi hp hh = omega (
    arith,
    length-append (iv ++ tag_of key iv (pk ++ hk)) (seal key iv (pk ++ hk)),
    length-append iv (tag_of key iv (pk ++ hk)),
    l.length-tag_of key iv (pk ++ hk),
    l.length-seal key iv (pk ++ hk),
    length-append pk hk,
  )

  -- The keys of a layer have 16 bytes.
  pub Layered-keys :
      {m : Bytes} {n : ℕ} {p pk hk : Bytes}
      → Layered m n p pk hk
      → (length pk ≡ 16) × (length hk ≡ 16)
  Layered-keys (core iv hi hp hh z e) = (hp, hh)
  Layered-keys (layer iv hiv inner hi hj hp hh z e) = (hp, hh)

  -- A payload is the header, the message, and a fixed size for each layer.
  pub length-Layered :
      {m : Bytes} {n : ℕ} {p pk hk : Bytes}
      → Layered m n p pk hk
      → length p ≡ 32 + length m + layer_size * n
  length-Layered {m} (core {pk = pk} iv hi hp hh z e) =
      omega (arith, ap length e, length-payload_of pk iv m hi)
  length-Layered {m}
        (layer {pk = pk} {hk = hk} {p0 = p0} {pk0 = pk0} {hk0 = hk0} iv hiv inner hi hj hp hh z e) =
      let keys = Layered-keys inner in
      omega (
        arith,
        ap length e,
        length-payload_of pk iv (p0 ++ history_of hk hiv pk0 hk0) hi,
        length-append p0 (history_of hk hiv pk0 hk0),
        length-history_of hk hiv pk0 hk0 hj keys.0 keys.1,
        length-Layered inner,
      )

  -- The encrypted header of a `CtHatData` under a key and an iv.
  abbrev pub hat_of : Bytes → Bytes → CtHatData → CtHatDataEn
  hat_of key iv meta = record {
    header = record { iv = iv; tag = tag_of key iv (meta_bytes meta) };
    body = seal key iv (meta_bytes meta);
  }

  -- `Holds key hat ct m n room`: under the key the header and the ciphertext hold the message
  -- under `n` layers, with a pad of `room` bytes.
  pub record Holds (key : Bytes) (hat : CtHatDataEn) (ct m : Bytes) (n room : ℕ) : Type 0 where
    pub meta : CtHatData
    pub hat_iv : Bytes
    pub payload : Bytes
    pub key_16 : length key ≡ 16
    pub hat_iv_16 : length hat_iv ≡ 16
    pub well_formed : IsMeta meta
    pub hat_is : hat ≡ hat_of key hat_iv meta
    pub layers : Layered m n payload meta.payload_key meta.history_key
    pub length_is : meta.ct_payload_length ≡ length m + layer_size * n
    pub ct_is : ct ≡ payload ++ pad e l meta.prg_seed room
