-- ===== src/Examples/PlainWire.antt =====
-- An encoding into words with the sizes of base64, a network that delivers in one piece, and a hardware module that appends a
-- byte.
use mathlib.Core.List.{flatten}
use quicke_r.Prelude.{
  ℕ, zero, suc, ◌+◌, ◌-◌, Option, none, if◌then◌else◌, ◌≤◌, ◌≡◌, ◌≢◌, refl, sym, ap, ◌∙◌, false,
  ◌==◌, some, [], ◌∷◌, ◌++◌, append-nil, Bytes, length, length-append, replicate, length-replicate,
  All, arith,
}
use quicke_r.Memory.{Run, ok}
use quicke_r.Memory.Binds.{ok-injective}
use quicke_r.Net.{max_send}
use quicke_r.Server.Update.{Base64}
use quicke_r.Server.Update.Recode.{IsFaithful, base64_size}
use quicke_r.Hsm.{Hsm, HsmLaws}
use quicke_r.Wire.{Network}
use quicke_r.Wire.Values.{Speaks}

-- Three bytes in four characters, of which the last says how many they are.
unfoldable pub grouped : Bytes → Bytes
grouped [] = []
grouped (x ∷ []) = (x + 33) ∷ 33 ∷ 33 ∷ 33 ∷ []
grouped (x ∷ y ∷ []) = (x + 33) ∷ (y + 33) ∷ 33 ∷ 34 ∷ []
grouped (x ∷ y ∷ z ∷ rest) = (x + 33) ∷ (y + 33) ∷ (z + 33) ∷ 35 ∷ grouped rest

unfoldable pub ungrouped : Bytes → Bytes
ungrouped (x ∷ y ∷ z ∷ k ∷ rest) =
    let behind = ungrouped rest in
    if k == 33
    then (x - 33) ∷ []
    else if k == 34
    then (x - 33) ∷ (y - 33) ∷ []
    else (x - 33) ∷ (y - 33) ∷ (z - 33) ∷ behind
ungrouped _ = []

unfoldable pub encoded : Bytes → Option Bytes
encoded [] = none
encoded (c ∷ s) = some (grouped (c ∷ s))

abbrev pub shifted : Base64
shifted = record { enc = encoded; dec = λ x. some (ungrouped x); dec_zero = λ x. length x == 0 }

pub back_there : (x : Bytes) → ungrouped (grouped x) ≡ x
unfolding ungrouped grouped
back_there [] = refl
back_there (x ∷ []) = let h : x + 33 - 33 ≡ x = omega arith in ap (λ d. d ∷ []) h
back_there (x ∷ y ∷ []) =
    let h : x + 33 - 33 ≡ x = omega arith in
    let h2 : y + 33 - 33 ≡ y = omega arith in rw (h, h2) refl
back_there (x ∷ y ∷ z ∷ rest) =
    let h : x + 33 - 33 ≡ x = omega arith in
    let h2 : y + 33 - 33 ≡ y = omega arith in
    let h3 : z + 33 - 33 ≡ z = omega arith in rw (h, h2, h3, back_there rest) refl

pub encodes_none : encoded [] ≡ none
unfolding encoded
encodes_none = refl

pub encodes_some : (x : Bytes) → 1 ≤ length x → encoded x ≡ some (grouped x)
unfolding encoded
encodes_some [] h = absurd (omega arith)
encodes_some (c ∷ s) h = refl

pub length-grouped : (x : Bytes) → length (grouped x) ≡ base64_size (length x)
unfolding grouped base64_size
length-grouped [] = refl
length-grouped (x ∷ []) = refl
length-grouped (x ∷ y ∷ []) = refl
length-grouped (x ∷ y ∷ z ∷ rest) = omega (arith, length-grouped rest)

abbrev pub shifted_faithful : IsFaithful shifted
shifted_faithful = record {
  text = grouped;
  empty = encodes_none;
  size = λ x h. length-grouped x;
  encodes = encodes_some;
  decodes = λ x h. ap some (back_there x);
}

pub above : (d : ℕ) (x : Bytes) → d ≤ 32 → All (λ c. c ≢ d) (grouped x)
unfolding grouped
above d [] h = tt
above d (x ∷ []) h =
    ((λ e. omega arith), ((λ e. omega arith), ((λ e. omega arith), ((λ e. omega arith), tt))))
above d (x ∷ y ∷ []) h =
    ((λ e. omega arith), ((λ e. omega arith), ((λ e. omega arith), ((λ e. omega arith), tt))))
above d (x ∷ y ∷ z ∷ rest) h = (
  (λ e. omega arith),
  ((λ e. omega arith), ((λ e. omega arith), ((λ e. omega arith), above d rest h))),
)

some_length : (x : Bytes) → 1 ≤ length x → 1 ≤ length (grouped x)
unfolding base64_size
some_length x h = omega (arith, length-grouped x)

pub not_empty : (x : Bytes) → 1 ≤ length x → grouped x ≢ []
not_empty x h = λ e. absurd (omega (arith, some_length x h, ap length e))

pub not_zero_length : (x : Bytes) → 1 ≤ length x → (length (grouped x) == 0) ≡ false
not_zero_length x h = ground (arith, some_length x h)

abbrev pub shifted_speaks : Speaks shifted_faithful
shifted_speaks = record {
  token = λ x h. ((not_empty x h, above 32 x (omega arith)), above 0 x (omega arith));
  not_zero = not_zero_length;
}

pub ones : (k : ℕ) → All (λ n. (1 ≤ n) × (n ≤ max_send)) (replicate k 1)
ones zero = tt
ones (suc k) = ((omega arith, omega arith), ones k)

pub flatten_one : (x : Bytes) → flatten (x ∷ []) ≡ x
unfolding flatten
flatten_one x = append-nil x

abbrev pub one_piece : Network
one_piece = record {
  accepts = λ x. replicate (length x) 1;
  cut = λ x. x ∷ [];
  usable = λ k. k + 24;
  usable_least = λ k. omega arith;
  accepts-some = λ x. ones (length x);
  accepts-enough = λ x. omega (arith, length-replicate {A = ℕ} (length x) 1);
  cut-whole = flatten_one;
  cut-Framed = λ t h. (t, refl);
}

abbrev pub appending : Hsm
appending = record {
  Session = ℕ;
  encrypt = λ handle plain s. ok (0, plain ++ (1 ∷ []), s);
  decrypt = λ handle wrapped s. ok (0, wrapped, s);
  generate = λ s. (0, 5, s);
  destroy = λ handle s. s;
  reset = λ s. s;
}

pub same_out :
    {a c : Bytes} {s t : ℕ} → ◌≡◌ {A = Run (ℕ × Bytes × ℕ)} (ok (0, a, s)) (ok (0, c, t)) → a ≡ c
same_out h = ap (λ x. x.1) (ok-injective h)

abbrev pub appending_laws : HsmLaws appending
appending_laws = record {
  Wrapped = λ handle plain wrapped. wrapped ≡ plain ++ (1 ∷ []);
  encrypt-Wrapped = λ handle plain out s s' h. sym (same_out h);
  decrypt-Wrapped = λ handle plain wrapped out s s' w h. (1 ∷ [], sym (same_out h) ∙ w);
  length-Wrapped =
      λ handle plain wrapped h. omega (arith, ap length h, length-append plain (1 ∷ []));
}
