-- ===== src/Cache/Select/Spacing.antt =====
-- The slots of `evenlySpacedMessageBreakpoints`: their indices grow, so every slot takes a new
-- candidate, and the second loop is never needed.
use native.Mathlib.Nat.{le-div_iff_mul-le, mul-div-le, mul-le-mul_right}
use native.Mathlib.Decide.{dec_le}
use mathlib.Core.List.Sublistᴰ
use mathlib.Core.List.{Sublistᴰ}
use moon_bridge.Prelude.Lists.{All-map_imp}
use moon_bridge.Prelude.Sublists.{take, take-sublist, sublist-snoc, get_elem?_in_range}
use moon_bridge.Prelude.{
  All, suc-ne-zero, ℕ, zero, suc, ◌+◌, ◌-◌, ◌*◌, ◌/◌, ◌≤◌, ◌<◌, min, ◌≡◌, refl, ◌∙◌, inl, inr, true,
  false, List, [], ◌∷◌, leb, nat_comparable, length, arith, Bool-cases, length-append,
}
use moon_bridge.Cache.Select.{
  Candidates, contains, slot_index, take_at, visit, slot_loop, evenly_spaced,
}

-- The quotient that `slot_index` takes, rounded up.
abbrev ceil : ℕ → ℕ → ℕ → ℕ
ceil count limit slot = (slot * count + limit - 1) / limit

ceil-step : (n l s : ℕ) → 0 < l → l ≤ n → ceil n l s < ceil n l (s + 1)
ceil-step n l s h k =
    (le-div_iff_mul-le {k = l} {x = suc (ceil n l s)} {y = (s + 1) * n + l - 1} h).1
      (grind (arith, mul-div-le (s * n + l - 1) l))

ceil-pos : (n l s : ℕ) → 0 < l → l ≤ n → 0 < s → 0 < ceil n l s
ceil-pos n l zero h k p = elim p [ ]
ceil-pos n l (suc s) h k p =
    (le-div_iff_mul-le {k = l} {x = 1} {y = suc s * n + l - 1} h).1 (grind arith)

ceil-le : (n l s : ℕ) → 0 < l → s ≤ l → ceil n l s ≤ n
ceil-le n l s h k = elim (dec_le (ceil n l s) n) [
  | yes p ↦ p
  | no p ↦
      let above : (n + 1) * l ≤ s * n + l - 1 =
        (le-div_iff_mul-le {k = l} {x = n + 1} {y = s * n + l - 1} h).0 (omega arith) in
      absurd (grind (arith, mul-le-mul_right n k))
]

ceil-last : (n l : ℕ) → 0 < l → ceil n l l ≡ n
ceil-last n l h =
    let up : n ≤ ceil n l l =
      (le-div_iff_mul-le {k = l} {x = n} {y = l * n + l - 1} h).1 (grind arith) in
    omega (arith, ceil-le n l l h (omega arith))

module _ (n l : ℕ) (pos_l : 0 < l) (l-le : l ≤ n) where
  slot_index-eq : (s : ℕ) → 0 < s → s ≤ l → slot_index n l s + 1 ≡ ceil n l s
  unfolding slot_index
  slot_index-eq s p q = ground (arith, ceil-pos n l s pos_l l-le p, ceil-le n l s pos_l q)

  -- The slots are in range.
  pub slot_index-lt : (s : ℕ) → 0 < s → s ≤ l → slot_index n l s < n
  slot_index-lt s p q = omega (arith, slot_index-eq s p q, ceil-le n l s pos_l q)

  -- Each slot lies above the one before it.
  pub slot_index_mono : (s : ℕ) → 0 < s → s < l → slot_index n l s < slot_index n l (s + 1)
  slot_index_mono s p q = omega (
    arith,
    slot_index-eq s p (omega arith),
    slot_index-eq (s + 1) (omega arith) (omega arith),
    ceil-step n l s pos_l l-le,
  )

  -- The last slot takes the last candidate.
  pub slot_index_last : slot_index n l l + 1 ≡ n
  slot_index_last = slot_index-eq l pos_l (omega arith) ∙ ceil-last n l pos_l

contains-below : (i : ℕ) (seen : List ℕ) → All (λ j. j < i) seen → contains i seen ≡ false
unfolding contains
contains-below i [] h = refl
contains-below i (j ∷ js) h = ground (arith, contains-below i js h.1)

module _ (cs : Candidates) (l : ℕ) (pos_l : 0 < l) (l-le : l ≤ length cs) where
  -- Before the round of `slot`, `slot - 1` candidates are selected, all of them from the first
  -- `bound` ones, and no index from `bound` on was seen.
  record IsSpaced (slot bound : ℕ) (state : List ℕ × Candidates) : Type 0 where
    seen : All (λ j. j < bound) state.0
    count : length state.1 + 1 ≡ slot
    below : slot ≤ l → bound ≤ slot_index (length cs) l slot
    spaced : Sublistᴰ state.1 (take bound cs)

  IsSpaced-start : IsSpaced 1 0 ([], [])
  IsSpaced-start = record {
    seen = tt;
    count = refl;
    below = λ p. omega arith;
    spaced = Sublistᴰ.slnil;
  }

  visit_lem :
      (slot bound : ℕ) (state : List ℕ × Candidates)
      → 0 < slot
      → slot ≤ l
      → IsSpaced slot bound state
      → IsSpaced
          (slot + 1)
          (suc (slot_index (length cs) l slot))
          (visit cs (slot_index (length cs) l slot) state)
  unfolding visit
  visit_lem slot bound (seen, selected) p q h =
      let i = slot_index (length cs) l slot in
      let (c, found) = get_elem?_in_range i cs (slot_index-lt (length cs) l pos_l l-le slot p q) in
      let new : contains i seen ≡ false =
        contains-below i seen (All-map_imp _ _ seen (λ j lt. omega (arith, h.below q)) h.seen) in
      rw new (
        rw (found, take_at)
          (record {
            seen = (omega arith, All-map_imp _ _ seen (λ j lt. omega (arith, h.below q)) h.seen);
            count = omega (arith, length-append selected (c ∷ []), h.count);
            below = λ r. slot_index_mono (length cs) l pos_l l-le slot p (omega arith);
            spaced = sublist-snoc selected bound i cs c h.spaced (h.below q) found;
          }))

  slot_loop_lem :
      (rounds slot bound : ℕ) (state : List ℕ × Candidates)
      → 0 < slot
      → rounds + slot ≡ l + 1
      → IsSpaced slot bound state
      → (length (slot_loop rounds slot cs l state).1 ≡ l)
        × Sublistᴰ (slot_loop rounds slot cs l state).1 cs
  unfolding slot_loop
  slot_loop_lem zero slot bound state p e h =
      (omega (arith, h.count), Sublistᴰ.trans h.spaced (take-sublist bound cs))
  slot_loop_lem (suc rounds) slot bound state p e h =
      slot_loop_lem rounds (slot + 1) _ _ (omega arith) (omega arith)
        (visit_lem slot bound state p (omega arith) h)

-- `evenlySpacedMessageBreakpoints` selects exactly as many candidates as the limit and the list
-- allow, and they are a sublist: each taken once, in the order of the list.
pub evenly_spaced_lem :
    (cs : Candidates) (l : ℕ)
    → (length (evenly_spaced cs l) ≡ min l (length cs)) × Sublistᴰ (evenly_spaced cs l) cs
unfolding evenly_spaced
evenly_spaced_lem cs zero = (omega arith, Sublistᴰ.nil-sublist cs)
evenly_spaced_lem [] (suc l) = rw suc-ne-zero (omega arith, Sublistᴰ.slnil)
evenly_spaced_lem (c ∷ cs) (suc l) = elim (Bool-cases (leb (length (c ∷ cs)) (suc l))) [
  | inl all ↦ rw (suc-ne-zero l) (rw all (ground arith, Sublistᴰ.refl (c ∷ cs)))
  | inr some_left ↦
      let (full, spaced) =
        slot_loop_lem (c ∷ cs) (suc l) (omega arith) (ground arith) (suc l) 1 0 ([], [])
          (omega arith) (omega arith)
          (IsSpaced-start (c ∷ cs) (suc l) (omega arith) (ground arith)) in
      let filled : leb (suc l) (length (slot_loop (suc l) 1 (c ∷ cs) (suc l) ([], [])).1) ≡ true =
        ground (arith, full) in
      rw (suc-ne-zero l) (rw some_left (rw filled (ground (arith, full), spaced)))
]
