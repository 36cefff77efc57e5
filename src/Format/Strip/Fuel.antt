-- ===== src/Format/Strip/Fuel.antt =====
-- Every round of `StripImageData` leaves a shorter text, so the fuel of the loop is enough.
use moon_bridge.Prelude.{
  ℕ, zero, suc, ◌≤◌, String, ◌≡◌, refl, ap, inl, inr, Option, none, some, arith, Option-cases, ◌⊎◌,
}
use Prim.Native.String.{◌++◌ as append}
use Prim.Native.Char.{Char}
use moon_bridge.Format.Strip.{
  size, strip_prefix, index_of, data_run, Round, ends, goes_on, url_round, raw_round, strip_round,
  strip_loop,
}

-- What is left of an optional text, or nothing.
abbrev left_of : Option String → ℕ
left_of none = 0
left_of (some s) = size s

abbrev after_of : Option (String × String) → ℕ
after_of none = 0
after_of (some (a, b)) = suc (size b)

abbrev rest_of : Round → ℕ
rest_of (ends t) = 0
rest_of (goes_on t rest) = suc (size rest)

size-strip_prefix : (p s : String) → left_of (strip_prefix p s) ≤ size s
unfolding strip_prefix size
size-strip_prefix String.[] s = omega arith
size-strip_prefix (String.◌∷◌ p ps) String.[] = omega arith
size-strip_prefix (String.◌∷◌ p ps) (String.◌∷◌ c s) = ground (arith, size-strip_prefix ps s)

-- Behind a marker that is not empty the text is shorter.
size-index_of : (p : Char) (ps s : String) → after_of (index_of (String.◌∷◌ p ps) s) ≤ size s
unfolding strip_prefix index_of size
size-index_of p ps String.[] = omega arith
size-index_of p ps (String.◌∷◌ c s) = ground (arith, size-index_of p ps s, size-strip_prefix ps s)

size-data_run : (s : String) → size (data_run s).1 ≤ size s
unfolding data_run size
size-data_run String.[] = omega arith
size-data_run (String.◌∷◌ c s) = ground (arith, size-data_run s)

size-url_round : (before after : String) → rest_of (url_round before after) ≤ suc (size after)
unfolding url_round
size-url_round before after = elim (Option-cases (index_of ";base64," after)) [
  | inl plain ↦ rw (plain, url_round) (omega arith)
  | inr ((kind, encoded), found) ↦
      let shorter : after_of (index_of ";base64," after) ≤ size after = size-index_of _ _ after in
      rw (found, url_round) (ground (arith, size-data_run encoded, shorter, ap after_of found))
]

size-raw_round :
    (marker kind before after : String)
    → rest_of (raw_round marker kind before after) ≤ suc (size after)
unfolding raw_round
size-raw_round marker kind before after = ground (arith, size-data_run after)

-- A round that goes on leaves a shorter text.
size-strip_round : (s : String) → rest_of (strip_round s) ≤ size s
unfolding strip_round
size-strip_round s =
    let url : after_of (index_of "data:image/" s) ≤ size s = size-index_of _ _ s in
    let png : after_of (index_of "iVBORw0KGgo" s) ≤ size s = size-index_of _ _ s in
    let jpeg : after_of (index_of "/9j/" s) ≤ size s = size-index_of _ _ s in
    grind (arith, size-url_round, size-raw_round)

Round-cases :
    (r : Round) → ((t : String) × (r ≡ ends t)) ⊎ ((p : String × String) × (r ≡ goes_on p.0 p.1))
Round-cases (ends t) = inl (t, refl)
Round-cases (goes_on t rest) = inr ((t, rest), refl)

-- The loop of `StripImageData` ends: each round leaves a shorter text, so any two numbers of
-- rounds that are at least the length of the text give the same result.
pub strip_loop_fuel :
    (s : String) (m n : ℕ) → size s ≤ m → size s ≤ n → strip_loop m s ≡ strip_loop n s
unfolding strip_loop size
strip_loop_fuel String.[] zero zero h k = refl
strip_loop_fuel String.[] zero (suc n) h k = refl
strip_loop_fuel String.[] (suc m) zero h k = refl
strip_loop_fuel String.[] (suc m) (suc n) h k = refl
strip_loop_fuel (String.◌∷◌ c s) zero n h k = ground arith
strip_loop_fuel (String.◌∷◌ c s) (suc m) zero h k = ground arith
strip_loop_fuel (String.◌∷◌ c s) (suc m) (suc n) h k =
    elim (Round-cases (strip_round (String.◌∷◌ c s))) [
      | inl (t, e) ↦ rw (e, strip_loop) refl
      | inr ((t, rest), e) ↦
          let shorter : size rest ≤ size s =
            omega (arith, size-strip_round (String.◌∷◌ c s), ap rest_of e) in
          rw (e, strip_loop)
            (ap (append t)
              (strip_loop_fuel rest m n (omega (arith, shorter)) (omega (arith, shorter))))
    ]
