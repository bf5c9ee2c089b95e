-- ===== src/Nested/Token.antt =====
-- The bytes of an update token read back as it.
use quicke_r.Prelude.{
  ℕ, zero, suc, ◌∷◌, ◌+◌, ◌<◌, ◌^◌, ◌≡◌, refl, sym, ap, ◌∙◌, [], ◌++◌, append_assoc, append-nil,
  Bytes, length, length-append, arith, leb, drop,
}
use quicke_r.Memory.{ok, peek}
use quicke_r.Memory.Regions.{peek_at}
use quicke_r.Nested.Layout.{
  DeltaToken, delta_bytes, delta_of_bytes, header_bytes, header_of_bytes, le32, of_le32,
  of_le32-le32,
}

-- The fields have their sizes, and the length fits an `int`.
pub record IsToken (d : DeltaToken) : Type 0 where
  pub data_iv_16 : length d.ct_hat_data_header.iv ≡ 16
  pub data_tag_16 : length d.ct_hat_data_header.tag ≡ 16
  pub hat_52 : length d.ct_hat ≡ 52
  pub history_iv_16 : length d.ct_hat_history_header.iv ≡ 16
  pub history_tag_16 : length d.ct_hat_history_header.tag ≡ 16
  pub history_32 : length d.ct_hat_history ≡ 32
  pub key_16 : length d.key_ae ≡ 16
  pub seed_16 : length d.prg_seed ≡ 16
  pub fits : d.len < 2 ^ 31

drop_behind : (a s : Bytes) (at off : ℕ) → at ≡ length a + off → drop at (a ++ s) ≡ drop off s
drop_behind [] s at off h = let same_at : at ≡ off = omega arith in rw same_at refl
drop_behind (x ∷ a) s zero off h = absurd (omega arith)
drop_behind (x ∷ a) s (suc at) off h = drop_behind a s at off (omega arith)

leb_shift : (k x y : ℕ) → leb (k + x) (k + y) ≡ leb x y
leb_shift k x y = ground arith

-- A read behind a part, which the part's size takes off the offset.
peek_behind : (a s : Bytes) (at off n : ℕ) → at ≡ length a + off → peek (a ++ s) at n ≡ peek s off n
unfolding peek
peek_behind a s at off n h =
    let count : at + n ≡ length a + (off + n) = omega arith in
    rw
      (
        drop_behind a s at off h,
        count,
        length-append a s,
        leb_shift (length a) (off + n) (length s),
      )
      refl

-- Nine parts, read one after the other.
token_of_parts :
    (a b c d e f g h i : Bytes)
    → length a ≡ 16
    → length b ≡ 16
    → length c ≡ 52
    → length d ≡ 16
    → length e ≡ 16
    → length f ≡ 32
    → length g ≡ 4
    → length h ≡ 16
    → length i ≡ 16
    → delta_of_bytes ((a ++ b) ++ (c ++ ((d ++ e) ++ (f ++ (g ++ (h ++ i))))))
      ≡ ok (record {
        ct_hat_data_header = record { iv = a; tag = b };
        ct_hat = c;
        ct_hat_history_header = record { iv = d; tag = e };
        ct_hat_history = f;
        len = of_le32 g;
        key_ae = h;
        prg_seed = i;
      })
unfolding delta_of_bytes header_of_bytes
token_of_parts a b c d e f g h i ha hb hc hd he hf hg hh hi =
    let ab : length (a ++ b) ≡ 32 = omega (arith, length-append a b) in
    let de : length (d ++ e) ≡ 32 = omega (arith, length-append d e) in
    let s1 = c ++ ((d ++ e) ++ (f ++ (g ++ (h ++ i)))) in
    let s2 = (d ++ e) ++ (f ++ (g ++ (h ++ i))) in
    let s3 = f ++ (g ++ (h ++ i)) in
    let s4 = g ++ (h ++ i) in
    let at84 : (off n : ℕ) → peek ((a ++ b) ++ s1) (84 + off) n ≡ peek s2 off n = λ off n.
      peek_behind (a ++ b) s1 (84 + off) (52 + off) n (omega arith)
      ∙ peek_behind c s2 (52 + off) off n (omega arith) in
    let at116 : (off n : ℕ) → peek ((a ++ b) ++ s1) (116 + off) n ≡ peek s3 off n = λ off n.
      ap (λ k. peek ((a ++ b) ++ s1) k n) (omega arith)
      ∙ at84 (32 + off) n
      ∙ peek_behind (d ++ e) s3 (32 + off) off n (omega arith) in
    let at148 : (off n : ℕ) → peek ((a ++ b) ++ s1) (148 + off) n ≡ peek s4 off n = λ off n.
      ap (λ k. peek ((a ++ b) ++ s1) k n) (omega arith)
      ∙ at116 (32 + off) n
      ∙ peek_behind f s4 (32 + off) off n (omega arith) in
    let at152 : (off n : ℕ) → peek ((a ++ b) ++ s1) (152 + off) n ≡ peek (h ++ i) off n = λ off n.
      ap (λ k. peek ((a ++ b) ++ s1) k n) (omega arith)
      ∙ at148 (4 + off) n
      ∙ peek_behind g (h ++ i) (4 + off) off n (omega arith) in
    let r0 : peek ((a ++ b) ++ s1) 0 16 ≡ ok a =
      rw (append_assoc a b s1) (peek_at [] a (b ++ s1) 0 16 refl (sym ha)) in
    let r16 : peek ((a ++ b) ++ s1) (0 + 16) 16 ≡ ok b =
      rw (append_assoc a b s1) (peek_at a b s1 16 16 (sym ha) (sym hb)) in
    let r32 : peek ((a ++ b) ++ s1) 32 52 ≡ ok c = peek_at (a ++ b) c s2 32 52 (sym ab) (sym hc) in
    let r84 : peek ((a ++ b) ++ s1) 84 16 ≡ ok d =
      at84 0 16 ∙ rw (append_assoc d e s3) (peek_at [] d (e ++ s3) 0 16 refl (sym hd)) in
    let r100 : peek ((a ++ b) ++ s1) (84 + 16) 16 ≡ ok e =
      at84 16 16 ∙ rw (append_assoc d e s3) (peek_at d e s3 16 16 (sym hd) (sym he)) in
    let r116 : peek ((a ++ b) ++ s1) 116 32 ≡ ok f =
      at116 0 32 ∙ peek_at [] f s4 0 32 refl (sym hf) in
    let r148 : peek ((a ++ b) ++ s1) 148 4 ≡ ok g =
      at148 0 4 ∙ peek_at [] g (h ++ i) 0 4 refl (sym hg) in
    let r152 : peek ((a ++ b) ++ s1) 152 16 ≡ ok h =
      at152 0 16 ∙ peek_at [] h i 0 16 refl (sym hh) in
    let last : peek (h ++ i) 16 16 ≡ ok i =
      let read = peek_at h i [] 16 16 (sym hh) (sym hi) in simp append-nil at read in
    let r168 : peek ((a ++ b) ++ s1) 168 16 ≡ ok i = at152 16 16 ∙ last in
    rw (r0, r16, r32, r84, r100, r116, r148, r152, r168) refl

-- The 184 bytes of a token whose fields have their sizes, and whose length fits an `int`, read back
-- as it.
pub delta_of_bytes-delta_bytes :
    (d : DeltaToken) → IsToken d → delta_of_bytes (delta_bytes d) ≡ ok d
unfolding delta_bytes header_bytes le32
delta_of_bytes-delta_bytes d h =
    token_of_parts d.ct_hat_data_header.iv d.ct_hat_data_header.tag d.ct_hat
      d.ct_hat_history_header.iv d.ct_hat_history_header.tag d.ct_hat_history (le32 d.len) d.key_ae
      d.prg_seed h.data_iv_16 h.data_tag_16 h.hat_52 h.history_iv_16 h.history_tag_16 h.history_32
      refl h.key_16 h.seed_16
    ∙ rw (of_le32-le32 d.len (omega (arith, h.fits))) refl

pub length-delta_bytes : (d : DeltaToken) → IsToken d → length (delta_bytes d) ≡ 184
unfolding delta_bytes header_bytes le32
length-delta_bytes d h = simp length-append (
    omega (
      arith, h.data_iv_16, h.data_tag_16, h.hat_52, h.history_iv_16, h.history_tag_16, h.history_32,
      h.key_16, h.seed_16,
    ))
