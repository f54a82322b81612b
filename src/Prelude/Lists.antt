-- ===== src/Prelude/Lists.antt =====
-- Lists over the native numbers, Boolean filters and counts, and a predicate on every element.
use Prim.Native.Nat.{ℕ, zero, suc, ◌+◌, ◌-◌, ◌≤◌}
use mathlib.Core.Path.{◌≡◌, refl, ap}
use mathlib.Core.Bool.{Bool, true, false, ◌||◌}
use mathlib.Core.Option.{Option, none, some}
use mathlib.Core.List.{List, [], ◌∷◌, ◌++◌}
use native.Mathlib.Omega.{arith}
use touchid_agent.Prelude.Tests.{if◌then◌else◌}

module _ {ℓ} {A : Type ℓ} where
  abbrev pub length : List A → ℕ
  length [] = 0
  length (x ∷ xs) = suc (length xs)

  abbrev pub is_nil : List A → Bool
  is_nil [] = true
  is_nil (x ∷ xs) = false

  abbrev pub drop : ℕ → List A → List A
  drop zero xs = xs
  drop (suc n) [] = []
  drop (suc n) (x ∷ xs) = drop n xs

  abbrev pub take : ℕ → List A → List A
  take zero xs = []
  take (suc n) [] = []
  take (suc n) (x ∷ xs) = x ∷ take n xs

  abbrev pub get_elem? : List A → ℕ → Option A
  get_elem? [] i = none
  get_elem? (x ∷ xs) zero = some x
  get_elem? (x ∷ xs) (suc i) = get_elem? xs i

  pub length-append : (xs ys : List A) → length (xs ++ ys) ≡ length xs + length ys
  length-append [] ys = omega arith
  length-append (x ∷ xs) ys = omega (arith, length-append xs ys)

  -- The elements that pass a test, in order.
  abbrev pub keep : (A → Bool) → List A → List A
  keep p [] = []
  keep p (x ∷ xs) = let rest = keep p xs in if p x then x ∷ rest else rest

  abbrev pub any : (A → Bool) → List A → Bool
  any p [] = false
  any p (x ∷ xs) = p x || any p xs

  abbrev pub count : (A → Bool) → List A → ℕ
  count p [] = 0
  count p (x ∷ xs) = (if p x then 1 else 0) + count p xs

  pub count-append : (p : A → Bool) (xs ys : List A) → count p (xs ++ ys) ≡ count p xs + count p ys
  count-append p [] ys = omega arith
  count-append p (x ∷ xs) ys = omega (arith, count-append p xs ys)

  pub count-le-length : (p : A → Bool) (xs : List A) → count p xs ≤ length xs
  count-le-length p [] = omega arith
  count-le-length p (x ∷ xs) = ground (arith, count-le-length p xs)

module _ {ℓ κ} {A : Type ℓ} (P : A → Type κ) where
  abbrev pub All : List A → Type κ
  All [] = Unit
  All (x ∷ xs) = P x × All xs

  pub All-append : (xs ys : List A) → All xs → All ys → All (xs ++ ys)
  All-append [] ys _ hy = hy
  All-append (x ∷ xs) ys (px, hx) hy = (px, All-append xs ys hx hy)

-- A list is empty, or has a last element.
pub data LastView {ℓ} {A : Type ℓ} (xs : List A) : Type ℓ where
  none_yet : xs ≡ [] → LastView xs
  ended : (ys : List A) (y : A) → xs ≡ ys ++ y ∷ [] → LastView xs

pub last_view {ℓ} : {A : Type ℓ} (xs : List A) → LastView xs
last_view [] = none_yet refl
last_view (x ∷ xs) = elim (last_view xs) [
  | none_yet e ↦ ended [] x (ap (λ t. x ∷ t) e)
  | ended ys y e ↦ ended (x ∷ ys) y (ap (λ t. x ∷ t) e)
]

module _ {ℓ} {A : Type ℓ} where
  pub take_at : (n : ℕ) (xs ys : List A) → length xs ≡ n → take n (xs ++ ys) ≡ xs
  take_at zero [] ys e = refl
  take_at zero (x ∷ xs) ys e = absurd (omega arith)
  take_at (suc n) [] ys e = absurd (omega arith)
  take_at (suc n) (x ∷ xs) ys e = ap (λ t. x ∷ t) (take_at n xs ys (omega arith))

  pub drop_at : (n : ℕ) (xs ys : List A) → length xs ≡ n → drop n (xs ++ ys) ≡ ys
  drop_at zero [] ys e = refl
  drop_at zero (x ∷ xs) ys e = absurd (omega arith)
  drop_at (suc n) [] ys e = absurd (omega arith)
  drop_at (suc n) (x ∷ xs) ys e = drop_at n xs ys (omega arith)

  pub take-drop : (n : ℕ) (xs : List A) → take n xs ++ drop n xs ≡ xs
  take-drop zero xs = refl
  take-drop (suc n) [] = refl
  take-drop (suc n) (x ∷ xs) = ap (λ t. x ∷ t) (take-drop n xs)

  pub length-take_at : (n : ℕ) (xs : List A) → n ≤ length xs → length (take n xs) ≡ n
  length-take_at zero xs h = refl
  length-take_at (suc n) [] h = absurd (omega arith)
  length-take_at (suc n) (x ∷ xs) h = ap suc (length-take_at n xs (omega arith))

  pub length-drop : (n : ℕ) (xs : List A) → length (drop n xs) ≡ length xs - n
  length-drop zero xs = omega arith
  length-drop (suc n) [] = omega arith
  length-drop (suc n) (x ∷ xs) = omega (arith, length-drop n xs)
