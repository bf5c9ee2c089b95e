-- ===== src/Memory/Binds.antt =====
-- Inversion of runs that returned.
use quicke_r.Prelude.{◌≡◌, refl, ◌⊎◌, inl, inr, subst, Option, none, some}
use quicke_r.Memory.{Run, ok, abort, fault, ◌>>=◌, or_fault}

pub bind_ok {ℓ κ} :
    {A : Type ℓ} {B : Type κ} (m : Run A) (f : A → Run B) {b : B}
    → (m >>= f) ≡ ok b
    → (a : A) × (m ≡ ok a) × (f a ≡ ok b)
bind_ok (ok a) f h = (a, refl, h)
bind_ok abort f h = cc
bind_ok fault f h = cc

pub or_fault_ok {ℓ} : {A : Type ℓ} (o : Option A) {a : A} → or_fault o ≡ ok a → o ≡ some a
or_fault_ok none h = cc
or_fault_ok (some x) h = cc

-- The process ended, or the run returned a value that is as said: it is no fault.
abbrev pub Outcome {ℓ} : {A : Type ℓ} → Run A → (A → Type ℓ) → Type ℓ
Outcome {A = A} m Q = (m ≡ abort) ⊎ ((a : A) × (m ≡ ok a) × Q a)

pub outcome_ok {ℓ} :
    {A : Type ℓ} {Q : A → Type ℓ} {m : Run A} {a : A} → Outcome m Q → m ≡ ok a → Q a
outcome_ok (inl ended) h = cc
outcome_ok {Q = Q} {a = a} (inr (b, is, q)) h = let e : b ≡ a = cc in subst Q e q

pub ok-injective {ℓ} : {A : Type ℓ} {a b : A} → ok a ≡ ok b → a ≡ b
ok-injective h = cc
