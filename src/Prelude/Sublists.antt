-- ===== src/Prelude/Sublists.antt =====
-- Prefixes of a list by a native number, and sublists.
use Prim.Native.Nat.{ℕ, zero, suc, ◌<◌, ◌≤◌}
use mathlib.Core.Path.{◌≡◌, refl, ap}
use mathlib.Core.List.{List, [], ◌∷◌, ◌++◌, Sublistᴰ}
use mathlib.Core.List.Sublistᴰ
use mathlib.Core.Option.{some}
use native.Mathlib.Omega.{arith}
use moon_bridge.Prelude.Lists.{length, get_elem?}

module _ {ℓ} {A : Type ℓ} where
  abbrev pub take : ℕ → List A → List A
  take zero xs = []
  take (suc n) [] = []
  take (suc n) (x ∷ xs) = x ∷ take n xs

  pub take-suc :
      (i : ℕ) (xs : List A) (c : A)
      → get_elem? xs i ≡ some c
      → take (suc i) xs ≡ take i xs ++ c ∷ []
  take-suc i [] c h = cc
  take-suc zero (x ∷ xs) c h = ground arith
  take-suc (suc i) (x ∷ xs) c h = ap (◌∷◌ x) (take-suc i xs c h)

  pub take_mono : (k i : ℕ) (xs : List A) → k ≤ i → Sublistᴰ (take k xs) (take i xs)
  take_mono zero i xs h = Sublistᴰ.nil-sublist _
  take_mono (suc k) zero xs h = elim h [ ]
  take_mono (suc k) (suc i) [] h = Sublistᴰ.slnil
  take_mono (suc k) (suc i) (x ∷ xs) h = Sublistᴰ.cons-cons refl (take_mono k i xs (omega arith))

  pub take-sublist : (k : ℕ) (xs : List A) → Sublistᴰ (take k xs) xs
  take-sublist zero xs = Sublistᴰ.nil-sublist _
  take-sublist (suc k) [] = Sublistᴰ.slnil
  take-sublist (suc k) (x ∷ xs) = Sublistᴰ.cons-cons refl (take-sublist k xs)

  -- One more element from at or behind the end of the prefix.
  pub sublist-snoc :
      (sel : List A) (k i : ℕ) (xs : List A) (c : A)
      → Sublistᴰ sel (take k xs)
      → k ≤ i
      → get_elem? xs i ≡ some c
      → Sublistᴰ (sel ++ c ∷ []) (take (suc i) xs)
  sublist-snoc sel k i xs c s h e =
      rw (take-suc i xs c e)
        (Sublistᴰ.append (Sublistᴰ.trans s (take_mono k i xs h)) (Sublistᴰ.refl (c ∷ [])))

  pub get_elem?_in_range :
      (i : ℕ) (xs : List A) → i < length xs → (c : A) × (get_elem? xs i ≡ some c)
  get_elem?_in_range i [] h = elim h [ ]
  get_elem?_in_range zero (x ∷ xs) h = (x, refl)
  get_elem?_in_range (suc i) (x ∷ xs) h = get_elem?_in_range i xs (omega arith)

  pub length-sublist-le : {xs ys : List A} → Sublistᴰ xs ys → length xs ≤ length ys
  length-sublist-le Sublistᴰ.slnil = omega arith
  length-sublist-le (Sublistᴰ.cons s) = omega (arith, length-sublist-le s)
  length-sublist-le (Sublistᴰ.cons-cons e s) = omega (arith, length-sublist-le s)
