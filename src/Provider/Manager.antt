-- ===== src/Provider/Manager.antt =====
-- internal/service/provider/manager.go: the state of `ProviderManager`, `NewProviderManager`,
-- `Reload` and the accessors, with the conversions of internal/service/provider/config.go. A client
-- is represented by the settings that it is built from, and a map is visited in the order of its list.
pub mod Index
pub mod Built
use moon_bridge.Prelude.{
  ℕ, String, Bool, true, false, not, ◌&&◌, ◌||◌, Option, none, some, List, [], ◌∷◌, ◌++◌, map,
  if◌then◌else◌, ◌==◌, nat_comparable, string_comparable, length,
}
use moon_bridge.Prelude.Int.{ℤ, pos}
use moon_bridge.Prelude.GoMap.{GoMap, get, put, has}
use moon_bridge.Provider.Order.{ModelProviderEntry}

-- `config.OfferEntry`, the fields that the manager reads.
pub record OfferEntry : Type 0 where
  pub model : String
  pub upstream_name : String
  pub priority : ℤ

-- `ProviderConfig`. The metadata of a model (`ModelMeta`) and the settings of the connection pool
-- are passed through as texts.
pub record ProviderConfig : Type 0 where
  pub base_url : String
  pub api_key : String
  pub version : String
  pub user_agent : String
  pub protocol : String
  pub http : String
  pub web_search_support : String
  pub model_names : List String
  pub models : GoMap String String
  pub offers : List OfferEntry

pub record ModelRoute : Type 0 where
  pub provider : String
  pub name : String

-- `anthropicClientAdapter`, by the settings that `anthropic.NewClient` is called with.
pub record Client : Type 0 where
  pub base_url : String
  pub api_key : String
  pub version : String
  pub user_agent : String
  pub http : String

pub record ProviderManager : Type 0 where
  pub clients : GoMap String Client
  pub providers : GoMap String ProviderConfig
  pub routes : GoMap String ModelRoute
  pub default_k : String
  pub resolved_ws : GoMap String String
  pub model_providers : GoMap String (List ModelProviderEntry)

-- The errors of the manager, with what their messages name.
pub data Error : Type 0 where
  base_url_required : String → Error
  no_provider_configured : Error
  no_default_provider : String → Error
  provider_not_configured : String → String → Error
  reference_not_found : String → String → Error
  no_available_provider : String → Error
  no_route : String → Error
  key_not_found : String → Error

pub data Result (A : Type 0) : Type 0 where
  ok : A → Result A
  err : Error → Result A

unfoldable pub client_of : ProviderConfig → Client
client_of cfg = record {
  base_url = cfg.base_url;
  api_key = cfg.api_key;
  version = cfg.version;
  user_agent = cfg.user_agent;
  http = cfg.http;
}

-- The loop that builds the clients.
unfoldable pub build_clients : GoMap String ProviderConfig → Result (GoMap String Client)
build_clients [] = ok []
build_clients ((key, cfg) ∷ cfgs) =
    if cfg.base_url == "" then err (base_url_required key) else elim (build_clients cfgs) [
      | ok clients ↦ ok ((key, client_of cfg) ∷ clients)
      | err e ↦ err e
    ]

-- The default key: "default", or the only key.
unfoldable pub default_key_of : GoMap String ProviderConfig → String
default_key_of ((key, cfg) ∷ []) = key
default_key_of cfgs = if has "default" cfgs then "default" else ""

-- The model that an offer names.
abbrev pub offer_model : OfferEntry → String
offer_model o = if o.model == "" then o.upstream_name else o.model

-- `offerModels[modelName]`
unfoldable pub is_offered : String → List OfferEntry → Bool
is_offered m [] = false
is_offered m (o ∷ os) = not (offer_model o == "") && offer_model o == m || is_offered m os

abbrev pub Index : Type 0
Index = GoMap String (List ModelProviderEntry)

unfoldable pub entries_of : String → Index → List ModelProviderEntry
entries_of m idx = elim (get m idx) [ none ↦ [] | some es ↦ es ]

-- `pm.modelProviders[modelName] = append(pm.modelProviders[modelName], entry)`
unfoldable pub index_append : String → ModelProviderEntry → Index → Index
index_append m e idx = put m (entries_of m idx ++ e ∷ []) idx

unfoldable pub index_names : String → List OfferEntry → List String → Index → Index
index_names key offers [] idx = idx
index_names key offers (m ∷ ms) idx = index_names key offers ms (
    if is_offered m offers
    then idx
    else index_append m (record { provider_key = key; priority = pos 0 }) idx)

unfoldable pub index_offers : String → List OfferEntry → Index → Index
index_offers key [] idx = idx
index_offers key (o ∷ os) idx = index_offers key os (
    if offer_model o == ""
    then idx
    else index_append (offer_model o) (record { provider_key = key; priority = o.priority }) idx)

-- The loop that builds the reverse index.
unfoldable pub build_index : GoMap String ProviderConfig → Index → Index
build_index [] idx = idx
build_index ((key, cfg) ∷ cfgs) idx =
    build_index cfgs (index_offers key cfg.offers (index_names key cfg.offers cfg.model_names idx))

-- `NewProviderManager`
unfoldable pub new_manager :
    GoMap String ProviderConfig → GoMap String ModelRoute → Result ProviderManager
new_manager cfgs routes = elim (build_clients cfgs) [
  | err e ↦ err e
  | ok [] ↦ err no_provider_configured
  | ok (c ∷ cs) ↦ ok (record {
    clients = c ∷ cs;
    providers = cfgs;
    routes = routes;
    default_k = default_key_of cfgs;
    resolved_ws = [];
    model_providers = build_index cfgs [];
  })
]

-- `config.ProviderDef` and `config.RouteEntry`, the fields that the conversions read.
pub record ProviderDef : Type 0 where
  pub base_url : String
  pub api_key : String
  pub version : String
  pub user_agent : String
  pub protocol : String
  pub web_search_support : String
  pub models : GoMap String String
  pub offers : List OfferEntry

pub record RouteEntry : Type 0 where
  pub provider : String
  pub model : String

unfoldable pub provider_config_of : ProviderDef → ProviderConfig
provider_config_of def = record {
  base_url = def.base_url;
  api_key = def.api_key;
  version = def.version;
  user_agent = def.user_agent;
  protocol = def.protocol;
  http = "";
  web_search_support = def.web_search_support;
  model_names = map (λ e. e.0) def.models;
  models = def.models;
  offers = def.offers;
}

-- `BuildProviderDefsFromConfig` and `BuildModelRoutesFromConfig`
unfoldable pub build_provider_defs : GoMap String ProviderDef → GoMap String ProviderConfig
build_provider_defs defs = map (λ e. (e.0, provider_config_of e.1)) defs

unfoldable pub build_model_routes : GoMap String RouteEntry → GoMap String ModelRoute
build_model_routes routes =
    map (λ e. (e.0, record { provider = e.1.provider; name = e.1.model })) routes

-- `Reload`: the manager afterwards, and the error if there is one.
unfoldable pub reload :
    GoMap String ProviderDef
    → GoMap String RouteEntry
    → ProviderManager
    → ProviderManager × Option Error
reload defs routes pm = elim (new_manager (build_provider_defs defs) (build_model_routes routes)) [
  | err e ↦ (pm, some e)
  | ok new ↦ (new, none)
]
