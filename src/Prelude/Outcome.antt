-- ===== src/Prelude/Outcome.antt =====
-- Go's `(value, error)` results as one type, with `do` notation.
use mathlib.Core.Path.{◌≡◌, refl}

pub data Result {ℓ κ} (E : Type ℓ) (A : Type κ) : Type (ℓ ⊔ κ) where
  ok : A → Result E A
  err : E → Result E A

infixl 5 ◌>>=◌
abbrev pub ◌>>=◌ {ε ℓ κ} :
    {E : Type ε} {A : Type ℓ} {B : Type κ} → Result E A → (A → Result E B) → Result E B
ok a >>= f = f a
err e >>= f = err e

-- A chain that ends well began well.
pub >>=-eq-ok {ε ℓ κ} :
    {E : Type ε} {A : Type ℓ} {B : Type κ} {y : B} (first : Result E A) (next : A → Result E B)
    → first >>= next ≡ ok y
    → (x : A) × (first ≡ ok x) × (next x ≡ ok y)
>>=-eq-ok (err e) next ends = cc
>>=-eq-ok (ok x) next ends = (x, refl, ends)
