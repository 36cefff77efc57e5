-- ===== src/Session/Tests.antt =====
-- The sessions at concrete inputs.
use text.Mathlib.TextEquality.{eq_iff}
use mathlib.Core.Path.{subst}
use moon_bridge.Prelude.{
  ◌≤◌, ◌↔◌, ℕ, String, ◌≡◌, refl, ◌≢◌, some, List, [], ◌∷◌, nat_comparable, string_comparable,
  arith,
}
use moon_bridge.Prelude.GoMap.{GoMap, get, put, has, IsMap}
use moon_bridge.Session.{
  ServerSession, InMemoryManager, Config, make_room, get_or_create, prune, evict_while, evict_lru,
}
use moon_bridge.Session.Eviction.{NoEmptyKey}
use moon_bridge.Session.Pruning.{get-prune}
use moon_bridge.Session.Valid.{IsValid}
use moon_bridge.Session.Lifecycle.{
  get_or_create-IsValid, get_or_create_resumes, get_or_create_again,
}
use moon_bridge.Session.Request.Isolation.{
  Step, request, sweep, trace, IsIsolated, trace-IsIsolated,
}

program : Unit {0}
unfolding get put has get_or_create prune make_room evict_while evict_lru
program = tt

abbrev config : Config String
config = record { session_ttl = 100; max_sessions = 2; plugin_data = some "data" }

abbrev empty : InMemoryManager String
empty = record { sessions = []; made = 0 }

empty-IsValid : IsValid String config empty
unfolding has get
empty-IsValid = record {
  is_map = tt;
  no_empty_key = refl;
  bounded = λ p. omega arith;
  is_separate = record {
    made_before = λ k e h. absurd (ground arith);
    isolated = λ k j e f h. absurd (ground arith);
  };
}

abbrev session_at : String → ℕ → ℕ → ServerSession String
session_at key i t = record {
  sess = record { identity = i; id = key; extension_data = some "data"; created_at = t };
  last_used = t;
}

abbrev two_sessions : GoMap String (ServerSession String)
two_sessions = ("a", session_at "a" 0 10) ∷ ("b", session_at "b" 1 5) ∷ []

two_sessions-IsMap : IsMap two_sessions
unfolding program
two_sessions-IsMap = (refl, (refl, tt))

two_sessions-NoEmptyKey : NoEmptyKey String two_sessions
unfolding program
two_sessions-NoEmptyKey = refl

get-prune_example :
    (get "b" (prune String 100 107 two_sessions) ≡ some (session_at "b" 1 5))
    ↔ ((get "b" two_sessions ≡ some (session_at "b" 1 5)) × (107 ≤ 105))
get-prune_example =
    get-prune String 100 107 "b" two_sessions (session_at "b" 1 5) two_sessions-IsMap

a_is_key : ◌≢◌ {A = String} "a" ""
a_is_key e = ground (arith, eq_iff "a" "")

-- The manager after one request under the key "a".
abbrev first : InMemoryManager String
first = record { sessions = ("a", session_at "a" 0 10) ∷ []; made = 1 }

first_is : (get_or_create String config "a" 10 empty).1 ≡ first
unfolding program
first_is = refl

get_or_create-IsValid_example : IsValid String config (get_or_create String config "a" 10 empty).1
get_or_create-IsValid_example =
    get_or_create-IsValid String config "a" 10 empty a_is_key empty-IsValid

first-IsValid : IsValid String config first
first-IsValid =
    subst (λ x. IsValid String config x) first_is
      (get_or_create-IsValid String config "a" 10 empty a_is_key empty-IsValid)

a_there : get "a" first.sessions ≡ some (session_at "a" 0 10)
unfolding program
a_there = refl

a_is_not_b : ◌≢◌ {A = String} "a" "b"
a_is_not_b e = ground (arith, eq_iff "a" "b")

-- The manager with both sessions, of which the second is stale at 107.
abbrev both : InMemoryManager String
both = record { sessions = two_sessions; made = 2 }

a_in_both : get "a" both.sessions ≡ some (session_at "a" 0 10)
unfolding program
a_in_both = refl

get_or_create_resumes_example :
    ((get_or_create String config "a" 107 both).0.identity ≡ 0)
    × ((get_or_create String config "a" 107 both).0.id ≡ "a")
    × ((get_or_create String config "a" 107 both).0.created_at ≡ 10)
    × ((get_or_create String config "a" 107 both).0.extension_data ≡ some "data")
    × (get "a" (get_or_create String config "a" 107 both).1.sessions
        ≡ some (record { sess = (get_or_create String config "a" 107 both).0; last_used = 107 }))
    × ((get_or_create String config "a" 107 both).1.made ≡ 2)
    × ((get "b" (get_or_create String config "a" 107 both).1.sessions ≡ some (session_at "b" 1 5))
        ↔ ((get "b" both.sessions ≡ some (session_at "b" 1 5)) × (107 ≤ 105)))
get_or_create_resumes_example =
    get_or_create_resumes String config "a" 107 both (session_at "a" 0 10) "b" (session_at "b" 1 5)
      two_sessions-IsMap a_in_both (omega arith) a_is_not_b

get_or_create_again_example :
    (get_or_create String config "a" 110 (get_or_create String config "a" 10 empty).1).0.identity
    ≡ (get_or_create String config "a" 10 empty).0.identity
get_or_create_again_example =
    get_or_create_again String config "a" 10 110 empty a_is_key empty-IsValid (omega arith)

abbrev steps : List Step
steps =
    request (record { session_id = "s"; x_codex_window_id = "" }) "r1" 10
    ∷ request (record { session_id = ""; x_codex_window_id = "s" }) "r2" 20
    ∷ sweep 30
    ∷ request (record { session_id = " "; x_codex_window_id = "" }) "r3" 40
    ∷ []

trace-IsIsolated_example : IsIsolated String (trace String config steps empty)
trace-IsIsolated_example = trace-IsIsolated String config steps empty empty-IsValid
