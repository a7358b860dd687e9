-- ===== src/Common/Runs.antt =====
-- Runs of C code that can stop: a failed `assert`, or a step that C leaves undefined.
use mathlib.Core.Path.{◌≡◌, refl}
use mathlib.Core.Bool.{Bool, true, false}
use mathlib.Core.Logic.{◌⊎◌, inl, inr}

-- `assertion` is a failed `assert`; `undefined` is a null or out-of-bounds access, or an overflow
-- that C leaves undefined; `stuck` is no C behaviour: a loop of the model ran out of fuel.
pub data Fault : Type 0 where
  assertion undefined stuck : Fault

pub data Run {ℓ} (A : Type ℓ) : Type ℓ where
  ok : A → Run A
  fault : Fault → Run A

infixl 5 ◌>>=◌ ◌>>◌
abbrev pub ◌>>=◌ {ℓ κ} : {A : Type ℓ} {B : Type κ} → Run A → (A → Run B) → Run B
ok a >>= f = f a
fault e >>= f = fault e

abbrev pub ◌>>◌ {ℓ} : {B : Type ℓ} → Run (Unit {0}) → Run B → Run B
m >> k = m >>= λ _. k

-- `assert(b)`
abbrev pub assert : Bool → Run (Unit {0})
assert true = ok tt
assert false = fault assertion

pub Run-cases {ℓ} :
    {A : Type ℓ} (m : Run A) → ((a : A) × (m ≡ ok a)) ⊎ ((e : Fault) × (m ≡ fault e))
Run-cases (ok a) = inl (a, refl)
Run-cases (fault e) = inr (e, refl)
