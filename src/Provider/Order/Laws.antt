-- ===== src/Provider/Order/Laws.antt =====
-- The order of the candidates is total, so the sort gives one result for all orders in which the
-- reverse index may have been built.
use Prim.Native.Nat.{Ordering}
use Prim.Native.String.compare
use Prim.Native.String.{compare}
use text.Mathlib.TextEquality.{path_by_compare}
use mathlib.Core.List.Permᴰ
use mathlib.Core.List.{Permᴰ}
use moon_bridge.Prelude.{
  suc, ◌+◌, ◌≤◌, ◌⊎◌, String, ◌≡◌, ◌≢◌, refl, ◌∙◌, sym, ap, true, false, List, [], ◌∷◌, arith,
  Bool-cases, inl, inr, All,
}
use moon_bridge.Prelude.Int.{pos_part, neg_part, ltb_ℤ, eq_of_parts}
use moon_bridge.Prelude.Lists.{All-map_imp}
use moon_bridge.Provider.Order.{ModelProviderEntry, text_lt, entry_less, insert_entry, sort_entries}

text_lt_asym : (s t : String) → text_lt s t ≡ true → text_lt t s ≡ false
text_lt_asym String.[] String.[] h = ground (arith, compare.nil-nil)
text_lt_asym String.[] (String.◌∷◌ d t) h = ground (arith, compare.cons-nil d t)
text_lt_asym (String.◌∷◌ c s) String.[] h = ground (arith, compare.cons-nil c s)
text_lt_asym (String.◌∷◌ c s) (String.◌∷◌ d t) h =
    ground (arith, compare.cons-cons c d s t, compare.cons-cons d c t s, text_lt_asym s t)

text_lt_trans : (s t u : String) → text_lt s t ≡ true → text_lt t u ≡ true → text_lt s u ≡ true
text_lt_trans String.[] String.[] u h k = ground (arith, compare.nil-nil)
text_lt_trans String.[] (String.◌∷◌ d t) String.[] h k = ground (arith, compare.cons-nil d t)
text_lt_trans String.[] (String.◌∷◌ d t) (String.◌∷◌ e u) h k = ground (arith, compare.nil-cons e u)
text_lt_trans (String.◌∷◌ c s) String.[] u h k = ground (arith, compare.cons-nil c s)
text_lt_trans (String.◌∷◌ c s) (String.◌∷◌ d t) String.[] h k = ground (arith, compare.cons-nil d t)
text_lt_trans (String.◌∷◌ c s) (String.◌∷◌ d t) (String.◌∷◌ e u) h k = ground (
  arith,
  compare.cons-cons c d s t,
  compare.cons-cons d e t u,
  compare.cons-cons c e s u,
  text_lt_trans s t u,
)

text_lt_tri : (s t : String) → text_lt s t ≡ false → text_lt t s ≡ false → compare s t ≡ Ordering.eq
text_lt_tri String.[] String.[] h k = compare.nil-nil
text_lt_tri String.[] (String.◌∷◌ d t) h k = ground (arith, compare.nil-cons d t)
text_lt_tri (String.◌∷◌ c s) String.[] h k = ground (arith, compare.nil-cons c s)
text_lt_tri (String.◌∷◌ c s) (String.◌∷◌ d t) h k =
    ground (arith, compare.cons-cons c d s t, compare.cons-cons d c t s, text_lt_tri s t)

-- `entry_less` is a strict total order.
entry_less_trans :
    (a b c : ModelProviderEntry)
    → entry_less a b ≡ true
    → entry_less b c ≡ true
    → entry_less a c ≡ true
unfolding entry_less
entry_less_trans a b c h k =
    ground (arith, text_lt_trans a.provider_key b.provider_key c.provider_key)

entry_less_asym : (a b : ModelProviderEntry) → entry_less a b ≡ true → entry_less b a ≡ false
unfolding entry_less
entry_less_asym a b h = ground (arith, text_lt_asym a.provider_key b.provider_key)

same_priority :
    (a b : ModelProviderEntry)
    → entry_less a b ≡ false
    → entry_less b a ≡ false
    → a.priority ≡ b.priority
unfolding entry_less
same_priority a b h k = ground (arith, eq_of_parts a.priority b.priority)

same_key :
    (a b : ModelProviderEntry)
    → entry_less a b ≡ false
    → entry_less b a ≡ false
    → a.provider_key ≡ b.provider_key
unfolding entry_less
same_key a b h k = path_by_compare _ _ (text_lt_tri _ _ (ground arith) (ground arith))

entry_less_tri :
    (a b : ModelProviderEntry) → entry_less a b ≡ false → entry_less b a ≡ false → a ≡ b
entry_less_tri a b h k =
    λ i. record { provider_key = same_key a b h k i; priority = same_priority a b h k i }

insert_entry_comm_less :
    (a b : ModelProviderEntry) (l : List ModelProviderEntry)
    → entry_less a b ≡ true
    → insert_entry a (insert_entry b l) ≡ insert_entry b (insert_entry a l)
unfolding insert_entry
insert_entry_comm_less a b [] h = ground (arith, entry_less_asym a b)
insert_entry_comm_less a b (x ∷ l) h =
    ground (arith, insert_entry_comm_less a b l, entry_less_asym a b, entry_less_trans x a b)

insert_entry_comm :
    (a b : ModelProviderEntry) (l : List ModelProviderEntry)
    → insert_entry a (insert_entry b l) ≡ insert_entry b (insert_entry a l)
insert_entry_comm a b l = elim (Bool-cases (entry_less a b)) [
  | inl lt ↦ insert_entry_comm_less a b l lt
  | inr not_lt ↦ elim (Bool-cases (entry_less b a)) [
    | inl gt ↦ sym (insert_entry_comm_less b a l gt)
    | inr not_gt ↦ rw (entry_less_tri a b not_lt not_gt)
  ]
]

-- However the entries are ordered before, the sort gives the same list: the candidates do not
-- depend on the order in which Go visits the map of providers.
pub sort_entries-perm :
    {es fs : List ModelProviderEntry} → Permᴰ es fs → sort_entries es ≡ sort_entries fs
unfolding sort_entries
sort_entries-perm Permᴰ.nil = refl
sort_entries-perm (Permᴰ.cons {a = a} {b = b} e p) =
    rw e (ap (insert_entry b) (sort_entries-perm p))
sort_entries-perm (Permᴰ.swap {a = a} {b = b} {a' = a'} {b' = b'} {l = l} e f) =
    rw e (rw f (insert_entry_comm b' a' (sort_entries l)))
sort_entries-perm (Permᴰ.trans p q) = sort_entries-perm p ∙ sort_entries-perm q

insert_entry-perm :
    (e : ModelProviderEntry) (l : List ModelProviderEntry) → Permᴰ (insert_entry e l) (e ∷ l)
unfolding insert_entry
insert_entry-perm e [] = Permᴰ.refl _
insert_entry-perm e (x ∷ l) = elim (Bool-cases (entry_less x e)) [
  | inl lt ↦ rw lt (Permᴰ.trans (Permᴰ.cons refl (insert_entry-perm e l)) (Permᴰ.swap refl refl))
  | inr ge ↦ rw ge (Permᴰ.refl _)
]

-- The sort loses and invents nothing.
pub perm-sort_entries : (l : List ModelProviderEntry) → Permᴰ (sort_entries l) l
unfolding sort_entries
perm-sort_entries [] = Permᴰ.nil
perm-sort_entries (e ∷ l) =
    Permᴰ.trans (insert_entry-perm e (sort_entries l)) (Permᴰ.cons refl (perm-sort_entries l))

-- No entry stands behind one that it precedes.
abbrev pub IsSorted : List ModelProviderEntry → Type 0
IsSorted [] = Unit
IsSorted (x ∷ l) = All (λ y. entry_less y x ≡ false) l × IsSorted l

All-insert_entry :
    (x e : ModelProviderEntry) (l : List ModelProviderEntry)
    → entry_less e x ≡ false
    → All (λ y. entry_less y x ≡ false) l
    → All (λ y. entry_less y x ≡ false) (insert_entry e l)
unfolding insert_entry
All-insert_entry x e [] h k = (h, tt)
All-insert_entry x e (y ∷ l) h k = elim (Bool-cases (entry_less y e)) [
  | inl lt ↦ rw lt (k.0, All-insert_entry x e l h k.1)
  | inr ge ↦ rw ge (h, k)
]

not-less_trans :
    (x y z : ModelProviderEntry)
    → entry_less y x ≡ false
    → entry_less z y ≡ false
    → entry_less z x ≡ false
not-less_trans x y z h k = elim (Bool-cases (entry_less z x)) [
  | inl lt ↦ elim (Bool-cases (entry_less x y)) [
    | inl lt' ↦ cc (entry_less_trans z x y lt lt')
    | inr ge' ↦ cc (entry_less_tri x y ge' h)
  ]
  | inr ge ↦ ge
]

insert_entry-IsSorted :
    (e : ModelProviderEntry) (l : List ModelProviderEntry)
    → IsSorted l
    → IsSorted (insert_entry e l)
unfolding insert_entry
insert_entry-IsSorted e [] h = (tt, tt)
insert_entry-IsSorted e (x ∷ l) h = elim (Bool-cases (entry_less x e)) [
  | inl lt ↦
      rw lt (All-insert_entry x e l (entry_less_asym x e lt) h.0, insert_entry-IsSorted e l h.1)
  | inr ge ↦ rw ge ((ge, All-map_imp _ _ l (λ z k. not-less_trans e x z ge k) h.0), h)
]

pub sort_entries-IsSorted : (l : List ModelProviderEntry) → IsSorted (sort_entries l)
unfolding sort_entries
sort_entries-IsSorted [] = tt
sort_entries-IsSorted (e ∷ l) = insert_entry-IsSorted e (sort_entries l) (sort_entries-IsSorted l)

insert_entry-ne-nil : (e : ModelProviderEntry) (l : List ModelProviderEntry) → insert_entry e l ≢ []
unfolding insert_entry
insert_entry-ne-nil e [] h = cc
insert_entry-ne-nil e (x ∷ l) h = ground arith

pub sort_entries-ne-nil :
    (e : ModelProviderEntry) (es : List ModelProviderEntry) → sort_entries (e ∷ es) ≢ []
unfolding sort_entries
sort_entries-ne-nil e es = insert_entry-ne-nil e (sort_entries es)

-- The first entry is to be tried before the second, or they are alike: it has the lower number for
-- its priority, or the same and a key that is not the greater of the two.
abbrev pub InOrder : ModelProviderEntry → ModelProviderEntry → Type 0
InOrder a b =
    (suc (pos_part a.priority + neg_part b.priority) ≤ pos_part b.priority + neg_part a.priority)
    ⊎ ((a.priority ≡ b.priority)
        × ((compare a.provider_key b.provider_key ≡ Ordering.lt)
            ⊎ (compare a.provider_key b.provider_key ≡ Ordering.eq)))

-- Every entry is in order with all that stand behind it.
abbrev pub AreInOrder : List ModelProviderEntry → Type 0
AreInOrder [] = Unit
AreInOrder (e ∷ es) = All (InOrder e) es × AreInOrder es

compare_not_gt :
    (s t : String) → text_lt t s ≡ false → (compare s t ≡ Ordering.lt) ⊎ (compare s t ≡ Ordering.eq)
compare_not_gt s t h = elim (Bool-cases (text_lt s t)) [
  | inl lt ↦ inl (ground arith)
  | inr ge ↦ inr (text_lt_tri s t ge h)
]

not-less-InOrder : (a b : ModelProviderEntry) → entry_less b a ≡ false → InOrder a b
unfolding entry_less
not-less-InOrder a b h = elim (Bool-cases (ltb_ℤ a.priority b.priority)) [
  | inl lower ↦ inl (ground arith)
  | inr not_lower ↦ inr (
    ground (arith, eq_of_parts a.priority b.priority),
    compare_not_gt a.provider_key b.provider_key (ground arith),
  )
]

IsSorted-AreInOrder : (l : List ModelProviderEntry) → IsSorted l → AreInOrder l
IsSorted-AreInOrder [] h = tt
IsSorted-AreInOrder (e ∷ l) h =
    (All-map_imp _ _ l (λ y k. not-less-InOrder e y k) h.0, IsSorted-AreInOrder l h.1)

-- The sort puts the lowest number first, and entries of one priority by their keys.
pub sort_entries-AreInOrder : (l : List ModelProviderEntry) → AreInOrder (sort_entries l)
sort_entries-AreInOrder l = IsSorted-AreInOrder (sort_entries l) (sort_entries-IsSorted l)
