-- ===== src/Session.antt =====
-- internal/service/server/session/manager.go: `InMemoryManager`, with `Session` of
-- internal/session/session.go. The lock makes each method one step, which returns the session and
-- the new state. Times and durations are nanoseconds; `now.Sub(lastUsed) > ttl` is written as a sum.
-- The data of the plugins is a parameter type, and the identity of a session, which Go gives it by
-- its address, is the number of sessions made before it.
pub mod Eviction
pub mod Pruning
pub mod Separate
pub mod Valid
pub mod Lifecycle
pub mod Ownership
pub mod Request
mod Tests
use moon_bridge.Prelude.{
  ℕ, zero, suc, ◌+◌, String, Bool, true, false, not, ◌&&◌, Option, none, some, List, [], ◌∷◌, map,
  ltb, leb, if◌then◌else◌, ◌==◌, nat_comparable, string_comparable, length,
}
use moon_bridge.Prelude.GoMap.{GoMap, get, put, delete}

module _ (Data : Type 0) where
  -- `Session`
  pub record Session : Type 0 where
    pub identity : ℕ
    pub id : String
    pub extension_data : Option Data
    pub created_at : ℕ

  -- `serverSession`
  pub record ServerSession : Type 0 where
    pub sess : Session
    pub last_used : ℕ

  pub record SessionInfo : Type 0 where
    pub key : String
    pub created_at : ℕ
    pub last_used : ℕ

  -- The state of the manager, and the number of sessions made so far.
  pub record InMemoryManager : Type 0 where
    pub sessions : GoMap String ServerSession
    pub made : ℕ

  -- `ConfigAccessor`, and what `pluginRegistry.NewSessionData()` gives, if there is a registry.
  pub record Config : Type 0 where
    pub session_ttl : ℕ
    pub max_sessions : ℕ
    pub plugin_data : Option Data

  -- `now.Sub(lastUsed) > ttl`
  abbrev pub is_stale : ℕ → ℕ → ServerSession → Bool
  is_stale ttl now e = ltb (e.last_used + ttl) now

  -- `pruneLocked`
  unfoldable pub prune : ℕ → ℕ → GoMap String ServerSession → GoMap String ServerSession
  prune ttl now [] = []
  prune ttl now ((k, e) ∷ m) =
      let rest = prune ttl now m in if is_stale ttl now e then rest else (k, e) ∷ rest

  -- The loop of `evictLRULocked`: the key and the time of the oldest entry so far.
  unfoldable pub oldest_from : String → ℕ → GoMap String ServerSession → String
  oldest_from k t [] = k
  oldest_from k t ((j, e) ∷ m) =
      oldest_from (if ltb e.last_used t then j else k)
        (if ltb e.last_used t then e.last_used else t) m

  -- The key that `evictLRULocked` finds; "" if the map is empty.
  unfoldable pub oldest_key : GoMap String ServerSession → String
  oldest_key [] = ""
  oldest_key ((k, e) ∷ m) = oldest_from k e.last_used m

  -- `evictLRULocked`: the map afterwards, or none if nothing was evicted.
  unfoldable pub evict_lru : GoMap String ServerSession → Option (GoMap String ServerSession)
  evict_lru m = if oldest_key m == "" then none else some (delete (oldest_key m) m)

  -- The loop that makes room. Each round that goes on evicts one session, so the number of sessions
  -- is fuel enough.
  unfoldable pub evict_while : ℕ → ℕ → GoMap String ServerSession → GoMap String ServerSession
  evict_while zero most m = m
  evict_while (suc fuel) most m = elim (leb most (length m)) [
    | false ↦ m
    | true ↦ elim (evict_lru m) [ none ↦ m | some m' ↦ evict_while fuel most m' ]
  ]

  unfoldable pub make_room : ℕ → GoMap String ServerSession → GoMap String ServerSession
  make_room most m = if ltb 0 most && leb most (length m) then evict_while (length m) most m else m

  -- `NewWithID` and `InitExtensions`
  abbrev pub new_session : Config → ℕ → String → ℕ → Session
  new_session cfg made key now = record {
    identity = made;
    id = key;
    extension_data = cfg.plugin_data;
    created_at = now;
  }

  -- The data of the plugins is filled in where a session has none.
  unfoldable pub backfill : Config → Session → Session
  backfill cfg s = record s {
    extension_data = elim s.extension_data [ none ↦ cfg.plugin_data | some d ↦ some d ];
  }

  -- `GetOrCreate`
  unfoldable pub get_or_create : Config → String → ℕ → InMemoryManager → Session × InMemoryManager
  get_or_create cfg key now m =
      let live = prune cfg.session_ttl now m.sessions in
      elim (get key live) [
        | some entry ↦ (
          backfill cfg entry.sess,
          record m {
            sessions = put key (record { sess = backfill cfg entry.sess; last_used = now }) live;
          },
        )
        | none ↦ (
          new_session cfg m.made key now,
          record {
            sessions =
                put key (record { sess = new_session cfg m.made key now; last_used = now })
                  (make_room cfg.max_sessions live);
            made = suc m.made;
          },
        )
      ]

  -- `Prune`
  unfoldable pub prune_all : Config → ℕ → InMemoryManager → InMemoryManager
  prune_all cfg now m = record m { sessions = prune cfg.session_ttl now m.sessions }

  -- `List`, with the times unformatted.
  unfoldable pub list_sessions : InMemoryManager → List SessionInfo
  list_sessions m =
      map (λ e. record { key = e.0; created_at = e.1.sess.created_at; last_used = e.1.last_used })
        m.sessions

  -- `NewEphemeral`, for the random identifier that `session.New` draws.
  unfoldable pub new_ephemeral : Config → String → ℕ → InMemoryManager → Session × InMemoryManager
  new_ephemeral cfg id now m = (new_session cfg m.made id now, record m { made = suc m.made })
