-- ===== src/Nested/Layout.antt =====
-- The structures of src/cd_encryption/AE_Nested_AES.h. Those that are encrypted as a whole are
-- laid out in bytes, in the order of their fields; the machine is little-endian and `int` has four
-- bytes.
use quicke_r.Prelude.{
  ℕ, ◌+◌, ◌*◌, ◌/◌, ◌%◌, ◌^◌, ◌<◌, ◌≡◌, refl, sym, append_assoc, [], ◌∷◌, ◌++◌, Bytes, length,
  arith, length-append, append-nil,
}
use quicke_r.Memory.{Run, ok, ◌>>=◌, peek}
use quicke_r.Memory.Regions.{peek_at}

-- KEY_LEN, IV_LEN, TAG_LEN, SEED_LEN
abbrev pub key_len : ℕ
key_len = 16

abbrev pub iv_len : ℕ
iv_len = 16

abbrev pub seed_len : ℕ
seed_len = 16

-- sizeof(AE_ctx_header), sizeof(ct_hat_data)
abbrev pub header_size : ℕ
header_size = 32

abbrev pub meta_size : ℕ
meta_size = 52

-- `2 * RHO + NU`, with RHO the key length and NU `2*sizeof(AE_ctx_header)`: what one update adds.
abbrev pub layer_size : ℕ
layer_size = 2 * key_len + 2 * header_size

pub record AeKey : Type 0 where
  pub key : Bytes
  pub k_t : ℕ

pub record CtxHeader : Type 0 where
  pub iv : Bytes
  pub tag : Bytes

pub record CtHatData : Type 0 where
  pub prg_seed : Bytes
  pub payload_key : Bytes
  pub history_key : Bytes
  pub ct_payload_length : ℕ

-- ct_hat_data_en: the encryption of a `CtHatData`
pub record CtHatDataEn : Type 0 where
  pub header : CtxHeader
  pub body : Bytes

pub record DeltaToken : Type 0 where
  pub ct_hat_data_header : CtxHeader
  pub ct_hat : Bytes
  pub ct_hat_history_header : CtxHeader
  pub ct_hat_history : Bytes
  pub len : ℕ
  pub key_ae : Bytes
  pub prg_seed : Bytes

-- An `int` that is not negative, as four bytes, and back.
unfoldable pub le32 : ℕ → Bytes
le32 n = n % 256 ∷ n / 256 % 256 ∷ n / 65536 % 256 ∷ n / 16777216 % 256 ∷ []

unfoldable pub of_le32 : Bytes → ℕ
of_le32 (a ∷ b ∷ c ∷ d ∷ []) = a + 256 * b + 65536 * c + 16777216 * d
of_le32 _ = 0

pub of_le32-le32 : (n : ℕ) → n < 2 ^ 32 → of_le32 (le32 n) ≡ n
unfolding le32 of_le32
of_le32-le32 n h = omega arith

unfoldable pub header_bytes : CtxHeader → Bytes
header_bytes h = h.iv ++ h.tag

unfoldable pub meta_bytes : CtHatData → Bytes
unfolding le32
meta_bytes m = m.prg_seed ++ (m.payload_key ++ (m.history_key ++ le32 m.ct_payload_length))

unfoldable pub meta_of_bytes : Bytes → Run CtHatData
meta_of_bytes b = do
  seed ← peek b 0 seed_len
  payload ← peek b 16 key_len
  history ← peek b 32 key_len
  n ← peek b 48 4
  ok (record {
    prg_seed = seed;
    payload_key = payload;
    history_key = history;
    ct_payload_length = of_le32 n;
  })

-- The fields of a `CtHatData` have their sizes, and its length fits an `int`.
pub record IsMeta (m : CtHatData) : Type 0 where
  pub seed_16 : length m.prg_seed ≡ 16
  pub payload_16 : length m.payload_key ≡ 16
  pub history_16 : length m.history_key ≡ 16
  pub fits : m.ct_payload_length < 2 ^ 31

pub length-meta_bytes : (m : CtHatData) → IsMeta m → length (meta_bytes m) ≡ meta_size
unfolding meta_bytes
length-meta_bytes m h = omega (
  arith,
  length-append m.prg_seed (m.payload_key ++ (m.history_key ++ le32 m.ct_payload_length)),
  length-append m.payload_key (m.history_key ++ le32 m.ct_payload_length),
  length-append m.history_key (le32 m.ct_payload_length),
)

-- Four parts, read one after the other.
meta_of_parts :
    (a b c d : Bytes)
    → length a ≡ 16
    → length b ≡ 16
    → length c ≡ 16
    → length d ≡ 4
    → meta_of_bytes (a ++ (b ++ (c ++ d)))
      ≡ ok
          (record { prg_seed = a; payload_key = b; history_key = c; ct_payload_length = of_le32 d })
unfolding meta_of_bytes
meta_of_parts a b c d ha hb hc hd = rw (
  peek_at [] a (b ++ (c ++ d)) 0 16 refl (sym ha),
  peek_at a b (c ++ d) 16 16 (sym ha) (sym hb),
  third,
  fourth,
)
  where
    third : peek (a ++ (b ++ (c ++ d))) 32 16 ≡ ok c
    third =
        rw (← append_assoc a b (c ++ d))
          (peek_at (a ++ b) c d 32 16 (omega (arith, length-append a b)) (sym hc))

    fourth : peek (a ++ (b ++ (c ++ d))) 48 4 ≡ ok d
    fourth =
        let read =
          peek_at (a ++ (b ++ c)) d [] 48 4
            (omega (arith, length-append a (b ++ c), length-append b c)) (sym hd) in
        simp (append_assoc, append-nil) at read

-- The bytes of a `CtHatData` whose fields have their sizes, and whose length fits an `int`, read
-- back as it.
pub meta_of_bytes-meta_bytes : (m : CtHatData) → IsMeta m → meta_of_bytes (meta_bytes m) ≡ ok m
unfolding meta_bytes
meta_of_bytes-meta_bytes m h = rw (
  meta_of_parts m.prg_seed m.payload_key m.history_key (le32 m.ct_payload_length) h.seed_16
      h.payload_16 h.history_16 refl,
  of_le32-le32 m.ct_payload_length (omega arith),
)

-- The 84 bytes of a `CtHatDataEn`.
unfoldable pub hat_bytes : CtHatDataEn → Bytes
unfolding header_bytes
hat_bytes h = header_bytes h.header ++ h.body

unfoldable pub header_of_bytes : Bytes → ℕ → Run CtxHeader
header_of_bytes b off = do
  iv ← peek b off iv_len
  tag ← peek b (off + 16) 16
  ok (record { iv = iv; tag = tag })

-- The cast to `delta_token_data*`: its 184 bytes, field by field.
unfoldable pub delta_of_bytes : Bytes → Run DeltaToken
unfolding header_of_bytes
delta_of_bytes b = do
  data_header ← header_of_bytes b 0
  hat ← peek b 32 meta_size
  history_header ← header_of_bytes b 84
  history ← peek b 116 32
  n ← peek b 148 4
  key ← peek b 152 key_len
  seed ← peek b 168 seed_len
  ok (record {
    ct_hat_data_header = data_header;
    ct_hat = hat;
    ct_hat_history_header = history_header;
    ct_hat_history = history;
    len = of_le32 n;
    key_ae = key;
    prg_seed = seed;
  })

-- The casts to `ct_hat_data_en*` and from `delta_token_data`, byte for byte.
unfoldable pub hat_of_bytes : Bytes → Run CtHatDataEn
unfolding header_of_bytes
hat_of_bytes b = do
  header ← header_of_bytes b 0
  body ← peek b 32 meta_size
  ok (record { header = header; body = body })

unfoldable pub delta_bytes : DeltaToken → Bytes
unfolding header_bytes le32
delta_bytes d =
    header_bytes d.ct_hat_data_header
    ++ (d.ct_hat
        ++ (header_bytes d.ct_hat_history_header
            ++ (d.ct_hat_history ++ (le32 d.len ++ (d.key_ae ++ d.prg_seed)))))
