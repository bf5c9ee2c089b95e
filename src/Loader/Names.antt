-- ===== src/Loader/Names.antt =====
-- The names of the keys.
use quicke_r.Prelude.{
  ℕ, ◌<◌, ◌≡◌, ◌≢◌, refl, zero, suc, All, length, same, same→eq, false, Bool-cases, inl, inr, [],
  ◌∷◌, Bytes, arith,
}
use quicke_r.Wire.Tokens.{IsToken}
use quicke_r.Loader.{key_letter, letters, key_name}

pub letters_above : (d left i j : ℕ) → d < 97 → All (λ c. c ≢ d) (letters left i j)
unfolding letters key_letter
letters_above d zero i j h = tt
letters_above d (suc left) i j h = ((λ e. omega (arith, h, e)), letters_above d left i (suc j) h)

letters_some : (left i j : ℕ) → letters (suc left) i j ≢ []
unfolding letters
letters_some left i j = λ e. cc

pub key_name-IsToken : (i : ℕ) → IsToken (key_name i)
unfolding key_name
key_name-IsToken i = (
  (letters_some 4 i 0, letters_above 32 5 i 0 (omega arith)),
  letters_above 0 5 i 0 (omega arith),
)

pub length-key_name : (i : ℕ) → length (key_name i) ≡ 5
unfolding key_name letters
length-key_name i = refl

head_same : {x y : ℕ} {xs ys : Bytes} → ◌≡◌ {A = Bytes} (x ∷ xs) (y ∷ ys) → x ≡ y
head_same h = cc

tail_same : {x y : ℕ} {xs ys : Bytes} → ◌≡◌ {A = Bytes} (x ∷ xs) (y ∷ ys) → xs ≡ ys
tail_same h = cc

key_name-injective : (i k : ℕ) → i < 11881376 → k < 11881376 → key_name i ≡ key_name k → i ≡ k
unfolding key_name letters key_letter
key_name-injective i k hi hk h =
    let h1 = tail_same h in
    let h2 = tail_same h1 in
    let h3 = tail_same h2 in
    let h4 = tail_same h3 in
    omega (arith, head_same h, head_same h1, head_same h2, head_same h3, head_same h4)

-- Below 26 ^ 5, different keys have different names.
pub key_name-distinct :
    (i k : ℕ) → i < 11881376 → k < 11881376 → i ≢ k → same (key_name i) (key_name k) ≡ false
key_name-distinct i k hi hk ne = elim (Bool-cases (same (key_name i) (key_name k))) [
  | inl equal ↦ absurd (ne (key_name-injective i k hi hk (same→eq (key_name i) (key_name k) equal)))
  | inr other ↦ other
]
