-- ===== src/Cache/Registry/Laws.antt =====
-- What the methods of the registry guarantee.
use text.Mathlib.TextEquality.{eq_iff}
use text.Mathlib.TextPositions.{eq_refl}
use moon_bridge.Prelude.{
  ℕ, ◌+◌, ◌≤◌, String, ◌≡◌, ◌∙◌, ◌≢◌, ◌⊎◌, inl, inr, List, [], ◌∷◌, true, false, Option, none, some,
  arith, ◌==◌, string_comparable, nat_comparable, if◌then◌else◌,
}
use moon_bridge.Prelude.Int.{ℤ, pos, ltb_ℤ}
use moon_bridge.Prelude.GoMap.{get, put, delete, get-put, get-delete}
use moon_bridge.Cache.Registry.{
  warming, warm, not_cacheable, missed, UsageSignals, RegistryEntry, MemoryRegistry, or_zero,
  five_minutes, set_entry, touched, observe, expiry_of, update_from_usage, reset_warming,
  warming_expiry, mark_warming,
}

-- Every entry is filed under its own `LocalKey`.
pub record IsFiled (reg : MemoryRegistry) : Type 0 where
  pub at_key : (k : String) (e : RegistryEntry) → get k reg ≡ some e → e.local_key ≡ k

put-IsFiled :
    (k : String) (e : RegistryEntry) {reg : MemoryRegistry}
    → e.local_key ≡ k
    → IsFiled reg
    → IsFiled (put k e reg)
put-IsFiled k e {reg} p h = record {
  at_key = λ j x q. ground (arith, get-put k j e reg, eq_iff k j, h.at_key j x);
}

pub set_entry-IsFiled :
    (e : RegistryEntry) {reg : MemoryRegistry} → IsFiled reg → IsFiled (set_entry e reg)
unfolding set_entry
set_entry-IsFiled e h = put-IsFiled e.local_key e (ground arith) h

observe-local_key :
    (u : UsageSignals) (n : ℤ) (x : ℕ) (e : RegistryEntry)
    → (observe u n x e).local_key ≡ e.local_key
unfolding observe
observe-local_key u n x e = ground arith

pub update_from_usage-IsFiled :
    (k : String) (u : UsageSignals) (n : ℤ) (ttl : Option ℤ) (now : ℕ) {reg : MemoryRegistry}
    → IsFiled reg
    → IsFiled (update_from_usage k u n ttl now reg)
unfolding update_from_usage
update_from_usage-IsFiled k u n ttl now {reg} h =
    put-IsFiled k _ (observe-local_key u n _ (touched k now (or_zero (get k reg)))) h

pub mark_warming-IsFiled :
    (k : String) (now : ℕ) {reg : MemoryRegistry} → IsFiled reg → IsFiled (mark_warming k now reg)
unfolding mark_warming
mark_warming-IsFiled k now h = put-IsFiled k _ (ground arith) h

delete-IsFiled : (k : String) {reg : MemoryRegistry} → IsFiled reg → IsFiled (delete k reg)
delete-IsFiled k {reg} h = record {
  at_key = λ j x q. ground (arith, get-delete k j reg, h.at_key j x);
}

reset_warming-cases :
    (k : String) (reg : MemoryRegistry)
    → (reset_warming k reg ≡ reg) ⊎ (reset_warming k reg ≡ delete k reg)
unfolding reset_warming
reset_warming-cases k reg = ground arith

pub reset_warming-IsFiled :
    (k : String) {reg : MemoryRegistry} → IsFiled reg → IsFiled (reset_warming k reg)
reset_warming-IsFiled k {reg} h = elim (reset_warming-cases k reg) [
  | inl e ↦ rw e h
  | inr e ↦ rw e (delete-IsFiled k h)
]

-- The calls that change the registry.
pub data Op : Type 0 where
  set : RegistryEntry → Op
  update : String → UsageSignals → ℤ → Option ℤ → ℕ → Op
  mark : String → ℕ → Op
  reset : String → Op

abbrev pub run_op : Op → MemoryRegistry → MemoryRegistry
run_op (set e) reg = set_entry e reg
run_op (update k u n ttl now) reg = update_from_usage k u n ttl now reg
run_op (mark k now) reg = mark_warming k now reg
run_op (reset k) reg = reset_warming k reg

abbrev pub run_ops : List Op → MemoryRegistry → MemoryRegistry
run_ops [] reg = reg
run_ops (op ∷ ops) reg = run_ops ops (run_op op reg)

run_op-IsFiled : (op : Op) {reg : MemoryRegistry} → IsFiled reg → IsFiled (run_op op reg)
run_op-IsFiled (set e) h = set_entry-IsFiled e h
run_op-IsFiled (update k u n ttl now) h = update_from_usage-IsFiled k u n ttl now h
run_op-IsFiled (mark k now) h = mark_warming-IsFiled k now h
run_op-IsFiled (reset k) h = reset_warming-IsFiled k h

-- Whatever calls are made, in whatever order, a registry in which every entry is filed under its
-- own `LocalKey` stays one.
pub run_ops-IsFiled :
    (ops : List Op) {reg : MemoryRegistry} → IsFiled reg → IsFiled (run_ops ops reg)
run_ops-IsFiled [] h = h
run_ops-IsFiled (op ∷ ops) h = run_ops-IsFiled ops (run_op-IsFiled op h)

-- The entry that `MarkWarming` leaves: it is warming, keeps a time of creation that it had, and
-- lives for at least five more minutes and never shorter than before.
pub record IsWarming (now : ℕ) (old new : RegistryEntry) : Type 0 where
  pub state : new.state ≡ warming
  pub created : (old.created_at ≢ 0) → new.created_at ≡ old.created_at
  pub lives : now + five_minutes ≤ new.expires_at
  pub no_shorter : old.expires_at ≤ new.expires_at
  pub misses : new.miss_count ≡ old.miss_count

marked : String → ℕ → RegistryEntry → RegistryEntry
unfolding touched warming_expiry
marked k now old = record (touched k now old) {
  state = warming;
  expires_at = warming_expiry now old.expires_at;
}

marked-IsWarming :
    (k : String) (now : ℕ) (old : RegistryEntry) → IsWarming now old (marked k now old)
unfolding marked
marked-IsWarming k now old = record {
  state = ground arith;
  created = λ h. ground arith;
  lives = ground arith;
  no_shorter = ground arith;
  misses = ground arith;
}

-- `MarkWarming` writes under its key an entry that is warming, keeps a time of creation that it
-- had, and lives for at least five more minutes and never shorter than before; every other key is
-- left as it was.
pub get-mark_warming :
    (k j : String) (now : ℕ) (reg : MemoryRegistry)
    → (e : RegistryEntry) × IsWarming now (or_zero (get k reg)) e
      × (get j (mark_warming k now reg) ≡ (if k == j then some e else get j reg))
unfolding mark_warming marked
get-mark_warming k j now reg = (
  marked k now (or_zero (get k reg)),
  marked-IsWarming k now (or_zero (get k reg)),
  get-put k j _ reg,
)

reset_warming_hit :
    (k : String) (e : RegistryEntry) (reg : MemoryRegistry)
    → get k reg ≡ some e
    → e.state ≡ warming
    → reset_warming k reg ≡ delete k reg
unfolding reset_warming
reset_warming_hit k e reg found w = ground arith

-- `MarkWarming` and then `ResetWarming` of one key leave no entry under the key, whatever stood
-- there before, a warm entry too; every other key is left as it was.
pub reset_warming-mark_warming :
    (k j : String) (now : ℕ) (reg : MemoryRegistry)
    → get j (reset_warming k (mark_warming k now reg)) ≡ (if k == j then none else get j reg)
reset_warming-mark_warming k j now reg =
    let (e, w, found) = get-mark_warming k k now reg in
    let (f, _, other) = get-mark_warming k j now reg in
    rw (reset_warming_hit k e _ (found ∙ rw eq_refl) w.state)
      (get-delete k j (mark_warming k now reg) ∙ ground (arith, other))

-- What `UpdateFromUsage` makes of the old entry: a cache write makes it warm until `ttl` from now,
-- a read makes it warm and keeps its expiry, and otherwise it is not cacheable, for at most 16
-- input tokens, or missed once more.
pub record IsObserved (usage : UsageSignals) (n : ℤ) (expires : ℕ) (old new : RegistryEntry)
    : Type 0 where
  pub written :
      ltb_ℤ (pos 0) usage.cache_creation_input_tokens ≡ true
      → (new.state ≡ warm)
        × (new.expires_at ≡ expires)
        × (new.cache_creation_input_tokens ≡ usage.cache_creation_input_tokens)
  pub read :
      ltb_ℤ (pos 0) usage.cache_creation_input_tokens ≡ false
      → ltb_ℤ (pos 0) usage.cache_read_input_tokens ≡ true
      → (new.state ≡ warm)
        × (new.expires_at ≡ old.expires_at)
        × (new.cache_read_input_tokens ≡ usage.cache_read_input_tokens)
  pub neither :
      ltb_ℤ (pos 0) usage.cache_creation_input_tokens ≡ false
      → ltb_ℤ (pos 0) usage.cache_read_input_tokens ≡ false
      → (new.expires_at ≡ old.expires_at)
        × (if ltb_ℤ (pos 16) n
            then (new.state ≡ missed) × (new.miss_count ≡ old.miss_count + 1)
            else (new.state ≡ not_cacheable) × (new.miss_count ≡ old.miss_count))
  pub created : old.created_at ≢ 0 → new.created_at ≡ old.created_at

observed : String → UsageSignals → ℤ → Option ℤ → ℕ → RegistryEntry → RegistryEntry
unfolding touched observe expiry_of
observed k u n ttl now old = observe u n (now + expiry_of ttl) (touched k now old)

observed-IsObserved :
    (k : String) (u : UsageSignals) (n : ℤ) (ttl : Option ℤ) (now : ℕ) (old : RegistryEntry)
    → IsObserved u n (now + expiry_of ttl) old (observed k u n ttl now old)
unfolding observed
observed-IsObserved k u n ttl now old = record {
  written = λ w. ground arith;
  read = λ w r. ground arith;
  neither = λ w r. ground arith;
  created = λ h. ground arith;
}

-- `UpdateFromUsage` writes under its key what it makes of the old entry, and leaves every other
-- key as it was: a cache write makes the entry warm for the time to live given or five minutes, a
-- cache read makes it warm, and otherwise it is not cacheable, for at most 16 input tokens, or
-- missed once more.
pub get-update_from_usage :
    (k j : String) (u : UsageSignals) (n : ℤ) (ttl : Option ℤ) (now : ℕ) (reg : MemoryRegistry)
    → (e : RegistryEntry) × IsObserved u n (now + expiry_of ttl) (or_zero (get k reg)) e
      × (get j (update_from_usage k u n ttl now reg) ≡ (if k == j then some e else get j reg))
unfolding update_from_usage observed
get-update_from_usage k j u n ttl now reg =
    let old = or_zero (get k reg) in
    (observed k u n ttl now old, observed-IsObserved k u n ttl now old, get-put k j _ reg)
