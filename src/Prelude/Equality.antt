-- ===== src/Prelude/Equality.antt =====
-- Go's `comparable` types, the keys of its maps: equality as a test, with what it decides.
use Prim.Native.Nat.{ℕ, suc}
use Prim.Native.String.{String}
use mathlib.Core.Path.{◌≡◌, refl}
use mathlib.Core.Logic.{◌↔◌}
use mathlib.Core.Bool.{Bool, true, false}
use text.Mathlib.Text.{◌==◌ as same_text}
use text.Mathlib.TextEquality.{eq_iff}
use native.Mathlib.Omega.{arith}
use moon_bridge.Prelude.Tests.{◌==◌ as same_number, ==_iff}

pub record Comparable {ℓ} (K : Type ℓ) : Type ℓ where
  pub equal : K → K → Bool
  pub equal_iff : (j k : K) → (equal j k ≡ true) ↔ (j ≡ k)

instance abbrev pub string_comparable : Comparable String
string_comparable = record { equal_iff = eq_iff; equal = same_text }

instance abbrev pub nat_comparable : Comparable ℕ
nat_comparable = record { equal_iff = ==_iff; equal = same_number }

-- Go's `==` on such a type.
infix 50 ◌==◌
abbrev pub ◌==◌ {ℓ} : {K : Type ℓ} ⦃keys : Comparable K⦄ (j k : K) → Bool
◌==◌ ⦃keys⦄ j k = keys.equal j k

pub ==_refl {ℓ} : {K : Type ℓ} ⦃keys : Comparable K⦄ (k : K) → (k == k) ≡ true
==_refl ⦃keys⦄ k = (keys.equal_iff k k).1 refl

pub suc-ne-zero : (n : ℕ) → (suc n == 0) ≡ false
suc-ne-zero n = ground arith
