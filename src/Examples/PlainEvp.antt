-- ===== src/Examples/PlainEvp.antt =====
-- A concrete EVP that meets the laws: the text is its own encryption, and the tag is sixteen times
-- the sum of the key, the iv and the text.
use quicke_r.Prelude.{
  ℕ, ◌+◌, ◌≡◌, refl, Option, none, some, [], ◌∷◌, ◌++◌, Bytes, replicate, same, if◌then◌else◌,
}
use quicke_r.Crypto.Evp.{Evp, EvpLaws, Cipher}

pub record Context : Type 0 where
  pub key : Bytes
  pub iv : Bytes
  pub text : Bytes
  pub tag : Bytes

sum : Bytes → ℕ
sum [] = 0
sum (x ∷ xs) = x + sum xs

sum_tag : Bytes → Bytes → Bytes → Bytes
unfolding sum
sum_tag key iv text = replicate 16 (sum key + (sum iv + sum text))

given : Option Bytes → Bytes → Bytes
given none old = old
given (some b) old = b

abbrev blank : Context
blank = record { key = []; iv = []; text = []; tag = [] }

keyed : Context → Option Cipher → Option Bytes → Option Bytes → Option Context
unfolding given
keyed c cipher key iv = some (record c { key = given key c.key; iv = given iv c.iv })

unfoldable pub plain : Evp
unfolding sum_tag keyed
plain = record {
  Ctx = Context;
  ctx_new = some blank;
  encrypt_init = keyed;
  decrypt_init = keyed;
  set_ivlen = λ c n. some c;
  get_tag = λ c n. some (sum_tag c.key c.iv c.text);
  set_tag = λ c t. some (record c { tag = t });
  encrypt_update = λ c p. some (p, record c { text = c.text ++ p });
  encrypt_final = λ c. some ([], c);
  decrypt_update = λ c p. some (p, record c { text = p });
  decrypt_final = λ c. if same c.tag (sum_tag c.key c.iv c.text) then some [] else none;
}

pub plain_laws : EvpLaws plain
unfolding plain
plain_laws = record {
  seal = λ k i p. p;
  unseal = λ k i p. p;
  tag_of = sum_tag;
  stream = λ k i p. p;
  length-seal = λ k i p. refl;
  length-unseal = λ k i p. refl;
  length-tag_of = λ k i p. refl;
  length-stream = λ k i p. refl;
  unseal-seal = λ k i p. refl;
  Sealing = λ k i t c. c ≡ record { key = k; iv = i; text = t; tag = [] };
  Finished = λ k i t c. c ≡ record { key = k; iv = i; text = t; tag = [] };
  Opening = λ k i c. c ≡ record { key = k; iv = i; text = []; tag = [] };
  Opened = λ k i t c. c ≡ record { key = k; iv = i; text = t; tag = [] };
  Tagged = λ k i t g c. c ≡ record { key = k; iv = i; text = t; tag = g };
  Streaming = λ k i c. Unit;
  seal_start = λ k i hk hi. record {
    c0 = blank;
    c1 = blank;
    c2 = blank;
    c3 = record { key = k; iv = i; text = []; tag = [] };
    made = refl;
    ciphered = refl;
    sized = refl;
    keyed = refl;
    holds = refl;
  };
  seal_update = λ k i fed p c h. (p, record c { text = c.text ++ p }, refl, rw h, refl);
  seal_final = λ k i fed c h. (c, refl, h);
  seal_tag = λ k i fed c h. rw h;
  open_start = λ k i hk hi. record {
    c0 = blank;
    c1 = blank;
    c2 = blank;
    c3 = record { key = k; iv = i; text = []; tag = [] };
    made = refl;
    ciphered = refl;
    sized = refl;
    keyed = refl;
    holds = refl;
  };
  open_update = λ k i p c h. (record c { text = p }, refl, rw h);
  open_tag = λ k i p g c h. (record c { tag = g }, refl, rw h);
  open_final = λ k i p g c h. rw h;
  stream_start =
      λ k i hk hi. (blank, record { key = k; iv = i; text = []; tag = [] }, refl, refl, tt);
  stream_update =
      λ k i p c h. (record c { text = c.text ++ p }, record c { text = c.text ++ p }, refl, refl);
}
