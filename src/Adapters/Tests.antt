-- ===== src/Adapters/Tests.antt =====
-- The registry of adapters at a concrete input.
use moon_bridge.Prelude.{String, ◌≡◌, List, [], ◌∷◌, string_comparable}
use moon_bridge.Prelude.GoMap.{get}
use moon_bridge.Adapters.Laws.{register_all, or_else, first_for, get-register_all}

abbrev adapters : List (String × String)
adapters = ("anthropic", "first") ∷ ("openai-chat", "second") ∷ ("anthropic", "third") ∷ []

get-register_all_example :
    get {K = String} "anthropic" (register_all String adapters [])
    ≡ or_else String (get {K = String} "anthropic" []) (first_for String "anthropic" adapters)
get-register_all_example = get-register_all String "anthropic" adapters []
