-- ===== src/Cache/Select/Chosen.antt =====
-- What `selectedMessageBreakpoints` selects: user messages first, then the rest, each path once.
use mathlib.Core.List.Sublistᴰ
use mathlib.Core.List.{Sublistᴰ}
use text.Mathlib.TextEquality.{eq_iff}
use moon_bridge.Prelude.{
  ℕ, zero, suc, ◌+◌, ◌-◌, min, String, ◌≡◌, refl, inl, inr, true, false, [], ◌∷◌, ◌++◌, leb, ◌==◌,
  nat_comparable, string_comparable, length, arith, suc-ne-zero, Bool-cases, length-append,
}
use moon_bridge.Prelude.Sublists.{length-sublist-le}
use moon_bridge.Cache.Select.{
  MessageBreakpointCandidate, Candidates, evenly_spaced, users, has_path, unused, select,
}
use moon_bridge.Cache.Select.Spacing.{evenly_spaced_lem}

-- No two candidates have the same path.
abbrev pub PathsDistinct : Candidates → Type 0
PathsDistinct [] = Unit
PathsDistinct (c ∷ cs) = (has_path c.block_path cs ≡ false) × PathsDistinct cs

has_path-sublist :
    (p : String) {xs ys : Candidates}
    → Sublistᴰ xs ys
    → has_path p ys ≡ false
    → has_path p xs ≡ false
unfolding has_path
has_path-sublist p Sublistᴰ.slnil h = refl
has_path-sublist p (Sublistᴰ.cons s) h = has_path-sublist p s (ground arith)
has_path-sublist p (Sublistᴰ.cons-cons e s) h = ground (arith, has_path-sublist p s, e)

PathsDistinct-sublist : {xs ys : Candidates} → Sublistᴰ xs ys → PathsDistinct ys → PathsDistinct xs
PathsDistinct-sublist Sublistᴰ.slnil h = tt
PathsDistinct-sublist (Sublistᴰ.cons s) h = PathsDistinct-sublist s h.1
PathsDistinct-sublist (Sublistᴰ.cons-cons e s) h =
    (rw e (has_path-sublist _ s h.0), PathsDistinct-sublist s h.1)

users-sublist : (cs : Candidates) → Sublistᴰ (users cs) cs
unfolding users
users-sublist [] = Sublistᴰ.slnil
users-sublist (c ∷ cs) = elim (Bool-cases (c.role == "user")) [
  | inl u ↦ rw u (Sublistᴰ.cons-cons refl (users-sublist cs))
  | inr o ↦ rw o (Sublistᴰ.cons (users-sublist cs))
]

unused-sublist : (sel cs : Candidates) → Sublistᴰ (unused sel cs) cs
unfolding unused
unused-sublist sel [] = Sublistᴰ.slnil
unused-sublist sel (c ∷ cs) = elim (Bool-cases (has_path c.block_path sel)) [
  | inl u ↦ rw u (Sublistᴰ.cons (unused-sublist sel cs))
  | inr o ↦ rw o (Sublistᴰ.cons-cons refl (unused-sublist sel cs))
]

unused_other :
    (s : MessageBreakpointCandidate) (sel cs : Candidates)
    → has_path s.block_path cs ≡ false
    → unused (s ∷ sel) cs ≡ unused sel cs
unfolding unused has_path
unused_other s sel [] h = refl
unused_other s sel (c ∷ cs) h = ground (
  arith,
  unused_other s sel cs,
  eq_iff s.block_path c.block_path,
  eq_iff c.block_path s.block_path,
)

has_path_self :
    (c : MessageBreakpointCandidate) (cs : Candidates) → has_path c.block_path (c ∷ cs) ≡ true
unfolding has_path
has_path_self c cs = ground (arith, eq_iff c.block_path c.block_path)

unused_self :
    (c : MessageBreakpointCandidate) (sel cs : Candidates)
    → unused (c ∷ sel) (c ∷ cs) ≡ unused (c ∷ sel) cs
unfolding unused
unused_self c sel cs = rw has_path_self

unused_new :
    (c : MessageBreakpointCandidate) (sel cs : Candidates)
    → has_path c.block_path sel ≡ false
    → unused sel (c ∷ cs) ≡ c ∷ unused sel cs
unfolding unused
unused_new c sel cs h = rw h

length-unused :
    {sel cs : Candidates}
    → Sublistᴰ sel cs
    → PathsDistinct cs
    → length (unused sel cs) + length sel ≡ length cs
length-unused Sublistᴰ.slnil d = unfold unused in omega arith
length-unused {sel} (Sublistᴰ.cons {a = c} {l₂ = cs} s) d =
    rw (unused_new c sel cs (has_path-sublist _ s d.0)) (omega (arith, length-unused s d.1))
length-unused (Sublistᴰ.cons-cons {a = a} {b = c} {l₁ = sel} {l₂ = cs} e s) d = rw e (
    rw (unused_self c sel cs) (rw (unused_other c sel cs d.0) (omega (arith, length-unused s d.1))))

-- The paths of `ys` are not among those of `xs`.
abbrev Apart : Candidates → Candidates → Type 0
Apart xs [] = Unit
Apart xs (y ∷ ys) = (has_path y.block_path xs ≡ false) × Apart xs ys

Apart-unused : (sel cs : Candidates) → Apart sel (unused sel cs)
unfolding unused
Apart-unused sel [] = tt
Apart-unused sel (c ∷ cs) = elim (Bool-cases (has_path c.block_path sel)) [
  | inl u ↦ rw u (Apart-unused sel cs)
  | inr o ↦ rw o (o, Apart-unused sel cs)
]

Apart-sublist : (xs : Candidates) {ys zs : Candidates} → Sublistᴰ ys zs → Apart xs zs → Apart xs ys
Apart-sublist xs Sublistᴰ.slnil h = tt
Apart-sublist xs (Sublistᴰ.cons s) h = Apart-sublist xs s h.1
Apart-sublist xs (Sublistᴰ.cons-cons e s) h = (rw e h.0, Apart-sublist xs s h.1)

has_path-append :
    (p : String) (xs ys : Candidates)
    → has_path p xs ≡ false
    → has_path p ys ≡ false
    → has_path p (xs ++ ys) ≡ false
unfolding has_path
has_path-append p [] ys h k = k
has_path-append p (x ∷ xs) ys h k = ground (arith, has_path-append p xs ys)

Apart-head :
    (x : MessageBreakpointCandidate) (xs ys : Candidates)
    → Apart (x ∷ xs) ys
    → (has_path x.block_path ys ≡ false) × Apart xs ys
unfolding has_path
Apart-head x xs [] h = (refl, tt)
Apart-head x xs (y ∷ ys) h = ground (
  arith,
  Apart-head x xs ys h.1,
  eq_iff x.block_path y.block_path,
  eq_iff y.block_path x.block_path,
)

PathsDistinct-append :
    (xs ys : Candidates)
    → PathsDistinct xs
    → PathsDistinct ys
    → Apart xs ys
    → PathsDistinct (xs ++ ys)
PathsDistinct-append [] ys h k a = k
PathsDistinct-append (x ∷ xs) ys h k a =
    let (none_there, apart) = Apart-head x xs ys a in
    (has_path-append _ xs ys h.0 none_there, PathsDistinct-append xs ys h.1 k apart)

-- From candidates with distinct paths, `selectedMessageBreakpoints` selects as many as the limit
-- and the list allow, and again with distinct paths.
pub select_exact :
    (cs : Candidates) (l : ℕ)
    → PathsDistinct cs
    → (length (select cs l) ≡ min l (length cs)) × PathsDistinct (select cs l)
unfolding select
select_exact cs zero d = (omega arith, tt)
select_exact [] (suc l) d = rw suc-ne-zero (omega arith, tt)
select_exact (c ∷ cs) (suc l) d =
    let all = c ∷ cs in
    let (count, first) = evenly_spaced_lem (users all) (suc l) in
    let sub = Sublistᴰ.trans first (users-sublist all) in
    let fewer = length-sublist-le (users-sublist all) in
    let distinct = PathsDistinct-sublist sub d in
    let selected = evenly_spaced (users all) (suc l) in
    elim (Bool-cases (leb (suc l) (length selected))) [
      | inl full ↦ rw (suc-ne-zero l) (rw full (ground (arith, count, fewer), distinct))
      | inr open_slots ↦
          let (count', second) =
            evenly_spaced_lem (unused selected all) (suc l - length selected) in
          let left = length-unused sub d in
          let sub' = Sublistᴰ.trans second (unused-sublist selected all) in
          rw (suc-ne-zero l) (
            rw open_slots (
              omega (
                arith,
                count,
                count',
                left,
                fewer,
                length-append {0} selected
                    (evenly_spaced (unused selected all) (suc l - length selected)),
              ),
              PathsDistinct-append selected _ distinct (PathsDistinct-sublist sub' d)
                  (Apart-sublist selected second (Apart-unused selected all)),
            ))
    ]
