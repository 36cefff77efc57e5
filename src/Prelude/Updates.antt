-- ===== src/Prelude/Updates.antt =====
-- `xs[i] = f(xs[i])`, and what it changes.
use Prim.Native.Nat.{ℕ, zero, suc, ◌+◌, ◌≤◌}
use mathlib.Core.Path.{◌≡◌, refl}
use mathlib.Core.List.{List, [], ◌∷◌, map}
use native.Mathlib.Omega.{arith}

module _ {A : Type 0} where
  -- Out of range nothing happens; Go would fault, so the callers stay in range.
  unfoldable pub set_at : (A → A) → ℕ → List A → List A
  set_at f i [] = []
  set_at f zero (x ∷ xs) = f x ∷ xs
  set_at f (suc i) (x ∷ xs) = x ∷ set_at f i xs

  unfoldable pub total : (A → ℕ) → List A → ℕ
  total w [] = 0
  total w (x ∷ xs) = w x + total w xs

  -- An update that a view does not see.
  pub map-set_at {ℓ} :
      {B : Type ℓ} (v : A → B) (f : A → A)
      → ((x : A) → v (f x) ≡ v x)
      → (i : ℕ) (xs : List A) → map v (set_at f i xs) ≡ map v xs
  unfolding set_at
  map-set_at v f same i [] = refl
  map-set_at v f same zero (x ∷ xs) = λ j. same x j ∷ map v xs
  map-set_at v f same (suc i) (x ∷ xs) = λ j. v x ∷ map-set_at v f same i xs j

  -- An update that adds at most one to a weight.
  pub total-set_at :
      (w : A → ℕ) (f : A → A)
      → ((x : A) → w (f x) ≤ w x + 1)
      → (i : ℕ) (xs : List A) → total w (set_at f i xs) ≤ total w xs + 1
  unfolding set_at total
  total-set_at w f one i [] = omega arith
  total-set_at w f one zero (x ∷ xs) = omega (arith, one x)
  total-set_at w f one (suc i) (x ∷ xs) = omega (arith, total-set_at w f one i xs)
