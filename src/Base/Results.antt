-- ===== src/Base/Results.antt =====
-- What a call into the C++ code ends with: a value, a deliberate end of the process, or a memory
-- access outside an object, which the language leaves undefined. And the integer return codes.
use Prim.Native.Nat.{ℕ}
use mathlib.Core.Path.{◌≡◌, refl}

pub data Outcome {ℓ} (A : Type ℓ) : Type ℓ where
  ret : A → Outcome A
  aborted : Outcome A
  fault : Outcome A

-- `abbrev`, so that `ret a >>= f` computes wherever it stands.
infixl 5 ◌>>=◌
abbrev pub ◌>>=◌ {ℓ κ} : {A : Type ℓ} {B : Type κ} → Outcome A → (A → Outcome B) → Outcome B
ret a >>= f = f a
aborted >>= f = aborted
fault >>= f = fault

-- An `int` return code: 0, or a negative number by its magnitude.
pub data Retcode : Type 0 where
  success : Retcode
  failure : ℕ → Retcode

-- Inversion of a bind that returned.
pub >>=-eq-ret {ℓ κ} :
    {A : Type ℓ} {B : Type κ} (m : Outcome A) (f : A → Outcome B) {b : B}
    → (m >>= f) ≡ ret b
    → (a : A) × (m ≡ ret a) × (f a ≡ ret b)
>>=-eq-ret (ret a) f h = (a, refl, h)
>>=-eq-ret aborted f h = cc
>>=-eq-ret fault f h = cc
