-- ===== src/Nested/Decrypt/LastStep.antt =====
-- decrypt_last_step takes off every layer of a payload.
use quicke_r.Prelude.{
  ℕ, zero, suc, ◌+◌, ◌*◌, ◌-◌, ◌≤◌, ◌<◌, ◌≡◌, refl, sym, ap, some, true, false, ◌==◌, [], ◌++◌,
  append_assoc, append-nil, Bytes, length, arith, length-append,
}
use quicke_r.Memory.{ok, peek}
use quicke_r.Memory.Regions.{parts, peek_at}
use quicke_r.Crypto.Evp.{Evp, EvpLaws}
use quicke_r.Crypto.Gcm.{gcm_decrypt}
use quicke_r.Crypto.Gcm.Open.{gcm_decrypt-seal}
use quicke_r.Nested.Layout.{layer_size}
use quicke_r.Nested.Encrypt.{fresh}
use quicke_r.Nested.Decrypt.{key_and, has_length_self, has_layer_of_le, success, decrypt_last_step}
use quicke_r.Nested.Layers.{
  Layered, core, layer, payload_of, history_of, length-Layered, length-history_of,
  length-payload_of, Layered-keys,
}

module _ {e : Evp} (l : EvpLaws e) where
  open l use {seal, tag_of}

  -- The three parts of a payload, read one by one.
  record Reads (key iv text extra : Bytes) : Type 0 where
    iv_read : peek (payload_of l key iv text ++ extra) 0 16 ≡ ok iv
    tag_read : peek (payload_of l key iv text ++ extra) 16 16 ≡ ok (tag_of key iv text)
    body_read : peek (payload_of l key iv text ++ extra) 32 (length text) ≡ ok (seal key iv text)

  reads : (key iv text extra : Bytes) → length iv ≡ 16 → Reads key iv text extra
  reads key iv text extra hi = record {
    iv_read =
        rw (append_assoc iv (tag ++ sealed) extra)
          (peek_at [] iv ((tag ++ sealed) ++ extra) 0 16 refl (sym hi));
    tag_read = rw whole (peek_at iv tag (sealed ++ extra) 16 16 (sym hi) (sym size));
    body_read =
        rw (whole, ← append_assoc iv tag (sealed ++ extra))
          (peek_at (iv ++ tag) sealed extra 32 (length text)
            (omega (arith, length-append iv tag, size)) (sym (l.length-seal key iv text)));
  }
    where
      tag : Bytes
      tag = tag_of key iv text

      sealed : Bytes
      sealed = seal key iv text

      size : length tag ≡ 16
      size = l.length-tag_of key iv text

      whole : payload_of l key iv text ++ extra ≡ iv ++ (tag ++ (sealed ++ extra))
      whole = simp append_assoc

  -- The three parts of a history behind an inner payload, read from the end of the text.
  record HistoryReads (key iv old p extra : Bytes) (len : ℕ) : Type 0 where
    iv_read :
        peek ((p ++ ((iv ++ tag_of key iv old) ++ seal key iv old)) ++ extra) (len - 64) 16 ≡ ok iv
    tag_read :
        peek ((p ++ ((iv ++ tag_of key iv old) ++ seal key iv old)) ++ extra) (len - 48) 16
        ≡ ok (tag_of key iv old)
    body_read :
        peek ((p ++ ((iv ++ tag_of key iv old) ++ seal key iv old)) ++ extra) (len - 32) 32
        ≡ ok (seal key iv old)

  history_reads :
      (key iv old p extra : Bytes) (len : ℕ)
      → length iv ≡ 16
      → length old ≡ 32
      → len ≡ length p + 64
      → HistoryReads key iv old p extra len
  history_reads key iv old p extra len hi ho hl = record {
    iv_read =
        rw whole (peek_at p iv (tag ++ (sealed ++ extra)) (len - 64) 16 (omega arith) (sym hi));
    tag_read =
        rw (whole, ← append_assoc p iv (tag ++ (sealed ++ extra)))
          (peek_at (p ++ iv) tag (sealed ++ extra) (len - 48) 16 (omega (arith, length-append p iv))
            (sym size));
    body_read =
        rw
          (
            whole,
            ← append_assoc p iv (tag ++ (sealed ++ extra)),
            ← append_assoc (p ++ iv) tag (sealed ++ extra),
          )
          (peek_at ((p ++ iv) ++ tag) sealed extra (len - 32) 32
            (omega (arith, length-append p iv, length-append (p ++ iv) tag, size))
            (omega (arith, l.length-seal key iv old)));
  }
    where
      tag : Bytes
      tag = tag_of key iv old

      sealed : Bytes
      sealed = seal key iv old

      size : length tag ≡ 16
      size = l.length-tag_of key iv old

      whole : (p ++ ((iv ++ tag) ++ sealed)) ++ extra ≡ p ++ (iv ++ (tag ++ (sealed ++ extra)))
      whole = simp append_assoc

  -- The 32 bytes of old keys come back, and are read as two keys.
  open_history :
      (key iv pk hk : Bytes)
      → length key ≡ 16
      → length iv ≡ 16
      → length pk ≡ 16
      → length hk ≡ 16
      → (gcm_decrypt e (seal key iv (pk ++ hk)) (tag_of key iv (pk ++ hk)) key iv 16 (fresh 32) 0
          ≡ ok (some 32, pk ++ hk))
        × (peek (pk ++ hk) 0 16 ≡ ok pk)
        × (peek (pk ++ hk) 16 16 ≡ ok hk)
  open_history key iv pk hk hk1 hi hp hh =
      let size : length (pk ++ hk) ≡ 32 = omega (arith, length-append pk hk) in
      let made = gcm_decrypt-seal e l key iv (pk ++ hk) [] (fresh 32) [] 0 hk1 hi refl (sym size) in
      let second = peek_at pk hk [] 16 16 (sym hp) (sym hh) in
      (
        simp (append-nil, size) at made,
        peek_at [] pk hk 0 16 refl (sym hp),
        simp append-nil at second,
      )

  -- The core: the text is the message.
  core_step :
      (pk hk iv m m0 rest extra scratch : Bytes) (depth : ℕ)
      → length pk ≡ 16
      → length iv ≡ 16
      → (key_and hk == 0) ≡ true
      → length m0 ≡ length m
      → decrypt_last_step e
          (suc depth)
          (payload_of l pk iv m ++ extra)
          pk
          hk
          (length m)
          (m0 ++ rest)
          scratch
        ≡ ok (success, m ++ rest)
  unfolding decrypt_last_step
  core_step pk hk iv m m0 rest extra scratch depth hp hi z same_m =
      let rd = reads pk iv m extra hi in
      rw (
        rd.iv_read,
        rd.tag_read,
        rd.body_read,
        z,
        gcm_decrypt-seal e l pk iv m [] m0 rest 0 hp hi refl same_m,
        has_length_self (length m),
      )

  -- A layer: the call goes on with the payload and the keys inside, and with the buffers swapped.
  layer_step :
      (pk hk iv hiv p0 pk0 hk0 text front back buf extra : Bytes) (depth : ℕ) {message : Bytes}
      → length pk ≡ 16
      → length hk ≡ 16
      → length iv ≡ 16
      → length hiv ≡ 16
      → length pk0 ≡ 16
      → length hk0 ≡ 16
      → (key_and hk == 0) ≡ false
      → length front ≡ length text
      → 32 ≤ length p0
      → text ≡ p0 ++ history_of l hk hiv pk0 hk0
      → decrypt_last_step e depth
          (text ++ back)
          pk0
          hk0
          (length text - layer_size)
          buf
          (payload_of l pk iv text ++ extra)
        ≡ ok (success, message)
      → decrypt_last_step e
          (suc depth)
          (payload_of l pk iv text ++ extra)
          pk
          hk
          (length text)
          buf
          (front ++ back)
        ≡ ok (success, message)
  unfolding decrypt_last_step
  layer_step pk hk iv hiv p0 pk0 hk0 text front back buf extra depth hp hh hi hj hp0 hh0 z size
        enough shape inner =
      let behind : length text ≡ length p0 + 64 = omega (
        arith,
        ap length shape,
        length-append p0 (history_of l hk hiv pk0 hk0),
        length-history_of l hk hiv pk0 hk0 hj hp0 hh0,
      ) in
      let rd = reads pk iv text extra hi in
      let hr =
        history_reads hk hiv (pk0 ++ hk0) p0 back (length text) hj
          (omega (arith, length-append pk0 hk0)) behind in
      let (opened, key_read, history_read) = open_history hk hiv pk0 hk0 hh hj hp0 hh0 in
      rw (
        rd.iv_read,
        rd.tag_read,
        rd.body_read,
        z,
        gcm_decrypt-seal e l pk iv text [] front back 0 hp hi refl size,
        has_length_self (length text),
        has_layer_of_le (length text) (omega arith),
        rw (← shape) at hr.iv_read,
        rw (← shape) at hr.tag_read,
        rw (← shape) at hr.body_read,
        opened,
        has_length_self 32,
        key_read,
        history_read,
        inner,
      )

  -- With more depth than layers, a scratch buffer that holds the text, and room for the message:
  -- the call returns 0 and the message stands at the front of its buffer.
  pub decrypt_last_step_lem :
      {m : Bytes} {n : ℕ} {p pk hk : Bytes}
      → Layered l m n p pk hk
      → (depth len : ℕ) (extra m0 rest scratch : Bytes) → n < depth
      → len ≡ length m + layer_size * n
      → length m0 ≡ length m
      → len ≤ length scratch
      → decrypt_last_step e depth (p ++ extra) pk hk len (m0 ++ rest) scratch
        ≡ ok (success, m ++ rest)
  decrypt_last_step_lem lay zero len extra m0 rest scratch below size same_m fits =
      absurd (omega arith)
  decrypt_last_step_lem {m} (core {pk = pk} {hk = hk} iv hi hp hh z shape) (suc depth) len extra m0
        rest scratch below size same_m fits =
      let whole : len ≡ length m = omega arith in
      rw (whole, shape) (core_step pk hk iv m m0 rest extra scratch depth hp hi z same_m)
  decrypt_last_step_lem {m}
        (layer {n = n} {pk = pk} {hk = hk} {p0 = p0} {pk0 = pk0} {hk0 = hk0} iv hiv inner hi hj hp
          hh z shape)
        (suc depth) len extra m0 rest scratch below size same_m fits =
      let keys = Layered-keys l inner in
      let history = history_of l hk hiv pk0 hk0 in
      let text = p0 ++ history in
      let size0 = length-Layered l inner in
      let behind : length text ≡ length p0 + 64 =
        omega
          (arith, length-append p0 history, length-history_of l hk hiv pk0 hk0 hj keys.0 keys.1) in
      let whole : len ≡ length text = omega arith in
      let x = parts scratch (length text) (omega arith) in
      let rest_of =
        decrypt_last_step_lem inner depth (length text - layer_size) (history ++ x.back) m0 rest
          (payload_of l pk iv text ++ extra) (omega arith) (omega arith) same_m
          (omega (
            arith,
            length-append (payload_of l pk iv text) extra,
            length-payload_of l pk iv text hi,
          )) in
      rw (whole, shape, x.whole)
        (layer_step pk hk iv hiv p0 pk0 hk0 text x.front x.back (m0 ++ rest) extra depth hp hh hi hj
          keys.0 keys.1 z x.size (omega arith) refl (rw (append_assoc p0 history x.back) rest_of))
