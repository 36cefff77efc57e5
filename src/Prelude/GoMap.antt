-- ===== src/Prelude/GoMap.antt =====
-- A Go map as an association list with one entry to a key. The order of the list stands for the
-- order in which a `range` loop happens to visit the map: theorems hold for every list.
use Prim.Native.Nat.{suc}
use mathlib.Core.Path.{◌≡◌, refl}
use mathlib.Core.Bool.{Bool, true, false, not, ◌||◌, ◌&&◌}
use mathlib.Core.Option.{Option, none, some}
use mathlib.Core.List.{List, [], ◌∷◌}
use native.Mathlib.Omega.{arith}
use moon_bridge.Prelude.Tests.{if◌then◌else◌}
use moon_bridge.Prelude.Lists.{length}
use moon_bridge.Prelude.Equality.{Comparable, ◌==◌}

abbrev pub GoMap {ℓ} : Type ℓ → Type ℓ → Type ℓ
GoMap K V = List (K × V)

module _ {ℓ} {K V : Type ℓ} ⦃e : Comparable K⦄ where
  -- `v, ok := m[k]`
  unfoldable pub get : K → GoMap K V → Option V
  get k [] = none
  get k ((j, v) ∷ m) = if j == k then some v else get k m

  -- `m[k] = v`
  unfoldable pub put : K → V → GoMap K V → GoMap K V
  put k v [] = (k, v) ∷ []
  put k v ((j, w) ∷ m) = if j == k then (k, v) ∷ m else (j, w) ∷ put k v m

  -- `delete(m, k)`
  unfoldable pub delete : K → GoMap K V → GoMap K V
  delete k [] = []
  delete k ((j, v) ∷ m) = let rest = delete k m in if j == k then rest else (j, v) ∷ rest

  -- `_, ok := m[k]`
  unfoldable pub has : K → GoMap K V → Bool
  has k [] = false
  has k ((j, v) ∷ m) = j == k || has k m

  -- One entry to a key.
  abbrev pub IsMap : GoMap K V → Type 0
  IsMap [] = Unit
  IsMap ((k, v) ∷ m) = (has k m ≡ false) × IsMap m

  pub get-put :
      (k j : K) (v : V) (m : GoMap K V) → get j (put k v m) ≡ (if k == j then some v else get j m)
  unfolding get put
  get-put k j v [] = refl
  get-put k j v ((i, w) ∷ m) =
      ground (arith, e.equal_iff k j, e.equal_iff i k, e.equal_iff i j, get-put k j v m)

  pub get-delete :
      (k j : K) (m : GoMap K V) → get j (delete k m) ≡ (if k == j then none else get j m)
  unfolding get delete
  get-delete k j [] = ground arith
  get-delete k j ((i, w) ∷ m) =
      ground (arith, e.equal_iff k j, e.equal_iff i k, e.equal_iff i j, get-delete k j m)

  pub has-put : (k j : K) (v : V) (m : GoMap K V) → has j (put k v m) ≡ (k == j || has j m)
  unfolding has put
  has-put k j v [] = refl
  has-put k j v ((i, w) ∷ m) =
      ground (arith, e.equal_iff k j, e.equal_iff i k, e.equal_iff i j, has-put k j v m)

  pub has-delete : (k j : K) (m : GoMap K V) → has j (delete k m) ≡ (not (k == j) && has j m)
  unfolding has delete
  has-delete k j [] = ground arith
  has-delete k j ((i, w) ∷ m) =
      ground (arith, e.equal_iff k j, e.equal_iff i k, e.equal_iff i j, has-delete k j m)

  pub has-get : (k : K) (m : GoMap K V) → has k m ≡ false → get k m ≡ none
  unfolding has get
  has-get k [] h = refl
  has-get k ((i, w) ∷ m) h = ground (arith, has-get k m)

  pub get-has : (k : K) (m : GoMap K V) → get k m ≡ none → has k m ≡ false
  unfolding has get
  get-has k [] h = refl
  get-has k ((i, w) ∷ m) h = ground (arith, get-has k m)

  pub put-IsMap : (k : K) (v : V) (m : GoMap K V) → IsMap m → IsMap (put k v m)
  unfolding put has
  put-IsMap k v [] h = (refl, tt)
  put-IsMap k v ((i, w) ∷ m) h =
      ground (arith, e.equal_iff i k, e.equal_iff k i, has-put k i v m, put-IsMap k v m h.1)

  pub delete-IsMap : (k : K) (m : GoMap K V) → IsMap m → IsMap (delete k m)
  unfolding delete
  delete-IsMap k [] h = tt
  delete-IsMap k ((i, w) ∷ m) h =
      ground (arith, e.equal_iff i k, has-delete k i m, delete-IsMap k m h.1)

  -- A write to a new key makes the map one longer, a write to an old key keeps its size.
  pub length-put :
      (k : K) (v : V) (m : GoMap K V)
      → length (put k v m) ≡ (if has k m then length m else suc (length m))
  unfolding put has
  length-put k v [] = refl
  length-put k v ((i, w) ∷ m) = ground (arith, length-put k v m)

  pub delete_absent : (k : K) (m : GoMap K V) → has k m ≡ false → delete k m ≡ m
  unfolding delete has
  delete_absent k [] h = refl
  delete_absent k ((i, w) ∷ m) h = ground (arith, delete_absent k m)

  -- Deleting a key that is there makes the map one shorter.
  pub length-delete :
      (k : K) (m : GoMap K V) → IsMap m → has k m ≡ true → suc (length (delete k m)) ≡ length m
  unfolding delete has
  length-delete k [] w h = cc
  length-delete k ((i, v) ∷ m) w h =
      ground (arith, e.equal_iff i k, delete_absent k m, length-delete k m w.1)
