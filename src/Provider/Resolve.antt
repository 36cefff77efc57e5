-- ===== src/Provider/Resolve.antt =====
-- internal/service/provider/manager.go: the resolution of model names, `ResolveModel`, `ClientFor`
-- and the accessors that resolve a name in part.
pub mod Candidates
pub mod Agreement
use Prim.Native.String.{◌++◌ as append}
use moon_bridge.Prelude.{
  ℕ, String, Bool, true, false, not, Option, none, some, List, [], ◌∷◌, map, if◌then◌else◌, ◌==◌,
  string_comparable,
}
use moon_bridge.Prelude.GoMap.{GoMap, get, put}
use moon_bridge.ModelRef.{parse}
use moon_bridge.Provider.Order.{ModelProviderEntry, sort_entries}
use moon_bridge.Provider.Manager.{
  ProviderConfig, ModelRoute, Client, ProviderManager, Result, ok, err, Error, no_default_provider,
  provider_not_configured, reference_not_found, no_available_provider, no_route, key_not_found,
  entries_of,
}

pub record ProviderCandidate : Type 0 where
  pub provider_key : String
  pub upstream_model : String
  pub protocol : String
  pub client : Client

abbrev pub ResolvedRoute : Type 0
ResolvedRoute = List ProviderCandidate

-- `Preferred`
unfoldable pub preferred : ResolvedRoute → Option ProviderCandidate
preferred [] = none
preferred (c ∷ cs) = some c

-- The key of a route, or the default key.
abbrev pub route_key : ProviderManager → ModelRoute → String
route_key pm route = if route.provider == "" then pm.default_k else route.provider

-- `ProtocolForKey`
unfoldable pub protocol_for_key : ProviderManager → String → String
protocol_for_key pm key = elim (get key pm.providers) [
  | none ↦ "anthropic"
  | some cfg ↦ if cfg.protocol == "" then "anthropic" else cfg.protocol
]

-- A direct reference, if the name is one, with its client, if there is one.
abbrev pub direct_client : ProviderManager → String → Option Client
direct_client pm name = if (parse name).0 == "" then none else get (parse name).0 pm.clients

-- `ClientFor`
unfoldable pub client_for : ProviderManager → String → Result (String × Client)
client_for pm name = elim (direct_client pm name) [
  | some client ↦ ok ((parse name).1, client)
  | none ↦ elim (get name pm.routes) [
    | none ↦ elim (get pm.default_k pm.clients) [
      | none ↦ err (no_default_provider name)
      | some client ↦ ok (name, client)
    ]
    | some route ↦ elim (get (route_key pm route) pm.clients) [
      | none ↦ err (provider_not_configured (route_key pm route) name)
      | some client ↦ ok (route.name, client)
    ]
  ]
]

unfoldable pub candidate : ProviderManager → String → String → Client → ProviderCandidate
candidate pm key upstream client = record {
  provider_key = key;
  upstream_model = upstream;
  protocol = protocol_for_key pm key;
  client = client;
}

-- The loop over the sorted entries, which skips keys without a client.
unfoldable pub candidates_for : ProviderManager → String → List ModelProviderEntry → ResolvedRoute
candidates_for pm name [] = []
candidates_for pm name (e ∷ es) =
    let rest = candidates_for pm name es in
    elim (get e.provider_key pm.clients) [
      | none ↦ rest
      | some client ↦ candidate pm e.provider_key name client ∷ rest
    ]

abbrev pub nonempty_or : Error → ResolvedRoute → Result ResolvedRoute
nonempty_or e [] = err e
nonempty_or e (c ∷ cs) = ok (c ∷ cs)

-- The third part of `ResolveModel`, on the entries of the name in the reverse index.
unfoldable pub resolve_dynamic :
    ProviderManager → String → List ModelProviderEntry → Result ResolvedRoute
resolve_dynamic pm name [] = err (no_route name)
resolve_dynamic pm name (e ∷ es) =
    nonempty_or (no_available_provider name) (candidates_for pm name (sort_entries (e ∷ es)))

-- The single candidate of a route or of a direct reference.
abbrev pub single : ProviderManager → String → String → Error → Option Client → Result ResolvedRoute
single pm key upstream e none = err e
single pm key upstream e (some client) = ok (candidate pm key upstream client ∷ [])

-- `ResolveModel`
unfoldable pub resolve_model : ProviderManager → String → Result ResolvedRoute
resolve_model pm name = elim (get name pm.routes) [
  | some route ↦
      single pm (route_key pm route) route.name (provider_not_configured (route_key pm route) name)
        (get (route_key pm route) pm.clients)
  | none ↦
      if not ((parse name).0 == "")
      then single pm (parse name).0 (parse name).1 (reference_not_found (parse name).0 name)
          (get (parse name).0 pm.clients)
      else resolve_dynamic pm name (entries_of name pm.model_providers)
]

-- `ClientForKey`
unfoldable pub client_for_key : ProviderManager → String → Result Client
client_for_key pm key = elim (get key pm.clients) [ none ↦ err (key_not_found key) | some c ↦ ok c ]

-- `ProtocolForModel`
unfoldable pub protocol_for_model : ProviderManager → String → String
protocol_for_model pm name =
    if not ((parse name).0 == "")
    then protocol_for_key pm (parse name).0
    else elim (get name pm.routes) [
      | none ↦ protocol_for_key pm pm.default_k
      | some route ↦ protocol_for_key pm (route_key pm route)
    ]

-- `UpstreamModelFor`
unfoldable pub upstream_model_for : ProviderManager → String → String
upstream_model_for pm name = elim (direct_client pm name) [
  | some client ↦ (parse name).1
  | none ↦ elim (get name pm.routes) [
    | none ↦ name
    | some route ↦ if route.name == "" then name else route.name
  ]
]

-- `ProviderKeyForModel`
unfoldable pub provider_key_for_model : ProviderManager → String → String
provider_key_for_model pm name = elim (direct_client pm name) [
  | some client ↦ (parse name).0
  | none ↦ elim (get name pm.routes) [ none ↦ pm.default_k | some route ↦ route_key pm route ]
]

-- `ProviderAndUpstreamForModel`
unfoldable pub provider_and_upstream_for_model : ProviderManager → String → Option (String × String)
provider_and_upstream_for_model pm name = elim (direct_client pm name) [
  | some client ↦ some (parse name)
  | none ↦ elim (get name pm.routes) [
    | some route ↦ some (route_key pm route, route.name)
    | none ↦ if pm.default_k == "" then none else some (pm.default_k, name)
  ]
]

-- `ProviderBaseURL`, `ProviderAPIKey` and `WebSearchConfigForKey`
unfoldable pub provider_setting : (ProviderConfig → String) → ProviderManager → String → String
provider_setting field pm key = elim (get key pm.providers) [ none ↦ "" | some cfg ↦ field cfg ]

-- `ModelMetaFor`
unfoldable pub model_meta_for : ProviderManager → String → String → Option String
model_meta_for pm name key = elim (get key pm.providers) [
  | none ↦ none
  | some cfg ↦ get name cfg.models
]

-- `WebSearchCandidateKey`
unfoldable pub web_search_candidate_key : String → String → String
web_search_candidate_key key upstream = append "candidate:" (append key (append "/" upstream))

-- `SetResolvedWebSearch`
unfoldable pub set_resolved_web_search : String → String → ProviderManager → ProviderManager
set_resolved_web_search key support pm = record pm { resolved_ws = put key support pm.resolved_ws }

-- A read of a map of texts: the empty text for a missing key.
abbrev pub text_at : String → GoMap String String → String
text_at k m = elim (get k m) [ none ↦ "" | some v ↦ v ]

-- `ResolvedWebSearchForModel`
unfoldable pub resolved_web_search_for_model : ProviderManager → String → String
resolved_web_search_for_model pm name =
    let by_provider = text_at (provider_key_for_model pm name) pm.resolved_ws in
    elim (get (append "model:" name) pm.resolved_ws) [
      | some v ↦ v
      | none ↦ elim (provider_and_upstream_for_model pm name) [
        | none ↦ by_provider
        | some (key, upstream) ↦ elim (get (web_search_candidate_key key upstream) pm.resolved_ws) [
          | some v ↦ v
          | none ↦ by_provider
        ]
      ]
    ]

-- `ResolvedWebSearchForCandidate`
unfoldable pub resolved_web_search_for_candidate : ProviderManager → String → String → String
resolved_web_search_for_candidate pm key upstream =
    let by_provider = text_at key pm.resolved_ws in
    if key == ""
    then ""
    else if upstream == ""
    then by_provider
    else elim (get (web_search_candidate_key key upstream) pm.resolved_ws) [
      | some v ↦ v
      | none ↦ by_provider
    ]

-- The loop of `FirstUpstreamModelForKey` over the routes.
unfoldable pub first_route_to : ProviderManager → String → GoMap String ModelRoute → Option String
first_route_to pm key [] = none
first_route_to pm key ((name, route) ∷ routes) =
    if route_key pm route == key then some route.name else first_route_to pm key routes

-- `FirstUpstreamModelForKey`
unfoldable pub first_upstream_model_for_key : ProviderManager → String → String
first_upstream_model_for_key pm key = elim (first_route_to pm key pm.routes) [
  | some name ↦ name
  | none ↦ elim (get key pm.providers) [
    | none ↦ ""
    | some cfg ↦ elim cfg.model_names [ [] ↦ "" | m ∷ ms ↦ m ]
  ]
]
