-- ===== src/Cache/Registry.antt =====
-- internal/protocol/cache/planner.go: `RegistryEntry` and `MemoryRegistry`. The lock makes each
-- method one step. Times are nanoseconds, 0 is Go's zero time, and `now` stands for `time.Now()`.
pub mod Laws
use moon_bridge.Prelude.{
  ℕ, ◌+◌, ◌*◌, String, Bool, true, false, not, ◌&&◌, Option, none, some, ltb, if◌then◌else◌, ◌==◌,
  nat_comparable, string_comparable,
}
use moon_bridge.Prelude.Int.{ℤ, pos, negsuc, ltb_ℤ}
use moon_bridge.Prelude.GoMap.{GoMap, get, put, delete}

-- The constants `StateWarming` to `StateFailed`; `unset` is the empty string of a fresh entry.
pub data State : Type 0 where
  unset warming warm expired not_cacheable missed failed : State

pub record UsageSignals : Type 0 where
  pub input_tokens : ℤ
  pub cache_creation_input_tokens : ℤ
  pub cache_read_input_tokens : ℤ

pub record RegistryEntry : Type 0 where
  pub state : State
  pub local_key : String
  pub created_at : ℕ
  pub expires_at : ℕ
  pub cache_creation_input_tokens : ℤ
  pub cache_read_input_tokens : ℤ
  pub miss_count : ℕ

abbrev pub MemoryRegistry : Type 0
MemoryRegistry = GoMap String RegistryEntry

-- What `registry.entries[key]` gives for a key that is not there.
abbrev pub zero_entry : RegistryEntry
zero_entry = record {
  state = unset;
  local_key = "";
  created_at = 0;
  expires_at = 0;
  cache_creation_input_tokens = pos 0;
  cache_read_input_tokens = pos 0;
  miss_count = 0;
}

abbrev pub or_zero : Option RegistryEntry → RegistryEntry
or_zero none = zero_entry
or_zero (some entry) = entry

abbrev pub five_minutes : ℕ
five_minutes = 5 * 60 * 1000000000

-- `Set`
unfoldable pub set_entry : RegistryEntry → MemoryRegistry → MemoryRegistry
set_entry entry reg = put entry.local_key entry reg

-- The entry with its key and its time of creation, as `UpdateFromUsage` and `MarkWarming` begin.
unfoldable pub touched : String → ℕ → RegistryEntry → RegistryEntry
touched key now entry = record entry {
  local_key = key;
  created_at = if entry.created_at == 0 then now else entry.created_at;
}

-- The optional duration: absent, zero and negative values mean five minutes.
unfoldable pub expiry_of : Option ℤ → ℕ
expiry_of none = five_minutes
expiry_of (some (pos d)) = if ltb 0 d then d else five_minutes
expiry_of (some (negsuc d)) = five_minutes

-- The `switch` of `UpdateFromUsage`.
unfoldable pub observe : UsageSignals → ℤ → ℕ → RegistryEntry → RegistryEntry
observe usage input_tokens expires entry =
    if ltb_ℤ (pos 0) usage.cache_creation_input_tokens
    then record entry {
      state = warm;
      cache_creation_input_tokens = usage.cache_creation_input_tokens;
      expires_at = expires;
    }
    else if ltb_ℤ (pos 0) usage.cache_read_input_tokens
    then record entry { state = warm; cache_read_input_tokens = usage.cache_read_input_tokens }
    else if not (ltb_ℤ (pos 16) input_tokens)
    then record entry { state = not_cacheable }
    else record entry { state = missed; miss_count = entry.miss_count + 1 }

-- `UpdateFromUsage`
unfoldable pub update_from_usage :
    String → UsageSignals → ℤ → Option ℤ → ℕ → MemoryRegistry → MemoryRegistry
unfolding touched observe expiry_of
update_from_usage key usage input_tokens ttl now reg =
    put key
      (observe usage input_tokens (now + expiry_of ttl) (touched key now (or_zero (get key reg))))
      reg

abbrev pub is_warming : State → Bool
is_warming warming = true
is_warming _ = false

-- `ResetWarming`
unfoldable pub reset_warming : String → MemoryRegistry → MemoryRegistry
reset_warming key reg = elim (get key reg) [
  | none ↦ reg
  | some entry ↦ if is_warming entry.state then delete key reg else reg
]

-- The expiry that `MarkWarming` writes: five minutes from now, or the old one if that is later.
unfoldable pub warming_expiry : ℕ → ℕ → ℕ
warming_expiry now old =
    let fresh = now + five_minutes in if not (old == 0) && ltb fresh old then old else fresh

-- `MarkWarming`
unfoldable pub mark_warming : String → ℕ → MemoryRegistry → MemoryRegistry
unfolding touched warming_expiry
mark_warming key now reg =
    let entry = touched key now (or_zero (get key reg)) in
    put key (record entry { state = warming; expires_at = warming_expiry now entry.expires_at }) reg
