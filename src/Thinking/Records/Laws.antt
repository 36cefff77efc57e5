-- ===== src/Thinking/Records/Laws.antt =====
-- The bounded store: records and order stay in step, the bound holds, and a new record survives.
use text.Mathlib.TextEquality.{eq_iff}
use moon_bridge.Prelude.{
  ℕ, ◌≤◌, ◌<◌, String, ◌≡◌, refl, sym, ◌∙◌, inl, inr, Bool, false, ◌||◌, some, List, [], ◌∷◌, ◌++◌,
  ◌==◌, string_comparable, ltb, length, length-append, arith, Bool-cases,
}
use moon_bridge.Prelude.GoMap.{
  GoMap, get, put, has, delete, IsMap, get-put, get-delete, has-put, has-delete, put-IsMap,
  delete-IsMap, length-put, length-delete,
}
use moon_bridge.Thinking.Block.{CoreContentBlock}
use moon_bridge.Thinking.Records.{Store, insert_new, prune_loop, prune_store}

unfoldable pub is_in : String → List String → Bool
is_in k [] = false
is_in k (j ∷ js) = j == k || is_in k js

abbrev pub Distinct : List String → Type 0
Distinct [] = Unit
Distinct (k ∷ ks) = (is_in k ks ≡ false) × Distinct ks

-- The records are those of the keys in the order, each key once.
pub record IsStored (s : Store) : Type 0 where
  pub is_map : IsMap s.records
  pub distinct : Distinct s.order
  pub keyed : (k : String) → has k s.records ≡ is_in k s.order
  pub sized : length s.records ≡ length s.order

is_in-snoc : (j k : String) (ks : List String) → is_in j (ks ++ k ∷ []) ≡ (is_in j ks || k == j)
unfolding is_in
is_in-snoc j k [] = ground arith
is_in-snoc j k (i ∷ ks) = ground (arith, is_in-snoc j k ks)

Distinct-snoc :
    (k : String) (ks : List String) → is_in k ks ≡ false → Distinct ks → Distinct (ks ++ k ∷ [])
unfolding is_in
Distinct-snoc k [] new d = (refl, tt)
Distinct-snoc k (i ∷ ks) new d = (
  ground (arith, is_in-snoc i k ks, eq_iff i k, eq_iff k i, d.0),
  Distinct-snoc k ks (ground arith) d.1,
)

pub insert_new-IsStored :
    (k : String) (b : CoreContentBlock) (s : Store) → IsStored s → IsStored (insert_new k b s)
unfolding insert_new
insert_new-IsStored k b s v = elim (Bool-cases (has k s.records)) [
  | inl old ↦ rw old (record {
    is_map = put-IsMap k b s.records v.is_map;
    distinct = v.distinct;
    keyed = λ j. ground (arith, has-put k j b s.records, v.keyed j, v.keyed k, eq_iff k j);
    sized = ground (arith, length-put k b s.records, v.sized);
  })
  | inr new ↦ rw new (record {
    is_map = put-IsMap k b s.records v.is_map;
    distinct = Distinct-snoc k s.order (sym (v.keyed k) ∙ new) v.distinct;
    keyed = λ j. ground (arith, has-put k j b s.records, v.keyed j, is_in-snoc j k s.order);
    sized = ground (arith, length-put k b s.records, v.sized, length-append s.order (k ∷ []));
  })
]

-- What is left when the first key of the order goes with its record.
tail-IsStored :
    (k : String) (ks : List String) (m : GoMap String CoreContentBlock)
    → IsStored (record { records = m; order = k ∷ ks })
    → IsStored (record { records = delete k m; order = ks })
unfolding is_in
tail-IsStored k ks m v = record {
  is_map = delete-IsMap k m v.is_map;
  distinct = v.distinct.1;
  keyed = λ j. ground (arith, has-delete k j m, v.keyed j, v.distinct.0, eq_iff k j);
  sized = ground (arith, length-delete k m v.is_map, v.keyed k, v.sized, eq_iff k k);
}

pub prune_loop-IsStored :
    (limit : ℕ) (ks : List String) (m : GoMap String CoreContentBlock)
    → IsStored (record { records = m; order = ks })
    → IsStored (prune_loop limit ks m) × (length (prune_loop limit ks m).order ≤ limit)
unfolding prune_loop
prune_loop-IsStored limit [] m v = (v, omega arith)
prune_loop-IsStored limit (k ∷ ks) m v = elim (Bool-cases (ltb limit (length (k ∷ ks)))) [
  | inl long ↦ rw long (prune_loop-IsStored limit ks (delete k m) (tail-IsStored k ks m v))
  | inr short ↦ rw short (v, ground arith)
]

pub prune_loop_short :
    (limit : ℕ) (ks : List String) (m : GoMap String CoreContentBlock)
    → length ks ≤ limit
    → prune_loop limit ks m ≡ record { records = m; order = ks }
unfolding prune_loop
prune_loop_short limit [] m h = refl
prune_loop_short limit (k ∷ ks) m h = elim (Bool-cases (ltb limit (length (k ∷ ks)))) [
  | inl long ↦ absurd (ground arith)
  | inr short ↦ rw short
]

-- The last key of the order keeps its record, if there is room for one.
last_survives :
    (limit : ℕ) (ks : List String) (k : String) (m : GoMap String CoreContentBlock)
    → 0 < limit
    → is_in k ks ≡ false
    → get k (prune_loop limit (ks ++ k ∷ []) m).records ≡ get k m
unfolding prune_loop is_in
last_survives limit [] k m p new = rw (prune_loop_short limit (k ∷ []) m p)
last_survives limit (i ∷ ks) k m p new =
    elim (Bool-cases (ltb limit (length (i ∷ (ks ++ k ∷ []))))) [
      | inl long ↦ rw long (
          last_survives limit ks k (delete i m) p (ground arith) ∙ ground (arith, get-delete i k m))
      | inr short ↦ rw short
    ]

-- In a store that is full at most, a record that is written survives the pruning after it.
pub get-insert_prune :
    (limit : ℕ) (k : String) (b : CoreContentBlock) (s : Store)
    → 0 < limit
    → IsStored s
    → length s.order ≤ limit
    → get k (prune_store limit (insert_new k b s)).records ≡ some b
unfolding insert_new
get-insert_prune limit k b s p v room = elim (Bool-cases (has k s.records)) [
  | inl old ↦ rw old (
      rw (prune_loop_short limit s.order (put k b s.records) room)
        (ground (arith, get-put k k b s.records, eq_iff k k)))
  | inr new ↦ rw new (
      last_survives limit s.order k (put k b s.records) p (sym (v.keyed k) ∙ new)
      ∙ ground (arith, get-put k k b s.records, eq_iff k k))
]

-- Pruning keeps records or drops them, and changes none.
pub prune_loop_kept :
    (limit : ℕ) (ks : List String) (m : GoMap String CoreContentBlock) (j : String)
    (b : CoreContentBlock)
    → get j (prune_loop limit ks m).records ≡ some b
    → get j m ≡ some b
unfolding prune_loop
prune_loop_kept limit [] m j b h = h
prune_loop_kept limit (k ∷ ks) m j b h = elim (Bool-cases (ltb limit (length (k ∷ ks)))) [
  | inl long ↦ ground (arith, get-delete k j m, prune_loop_kept limit ks (delete k m) j b)
  | inr short ↦ ground arith
]
