-- ===== src/Provider/Tests.antt =====
-- The providers at concrete inputs: two providers that offer one model, and an alias.
use mathlib.Core.List.{Permᴰ}
use moon_bridge.Prelude.{
  All, ℕ, String, ◌≡◌, refl, sym, ◌∙◌, ◌≢◌, ◌⊎◌, none, some, List, [], ◌∷◌, map, string_comparable,
}
use moon_bridge.Prelude.Int.{pos}
use moon_bridge.Prelude.GoMap.{GoMap, get, put, has}
use moon_bridge.ModelRef.{parse}
use moon_bridge.Provider.Order.Laws.{AreInOrder}
use moon_bridge.Provider.Order.{ModelProviderEntry, entry_less, insert_entry, sort_entries}
use moon_bridge.Provider.Manager.{
  OfferEntry, ProviderConfig, ModelRoute, ProviderManager, ok, client_of, build_clients,
  default_key_of, entries_of, index_append, index_names, index_offers, is_offered, build_index,
  new_manager, ProviderDef, build_provider_defs, build_model_routes, reload,
}
use moon_bridge.Provider.Manager.Index.{entries_of-index, scan_entries, sorted_index-perm}
use moon_bridge.Provider.Manager.Built.{IsBuilt, new_manager-IsBuilt, reload_atomic}
use moon_bridge.Provider.Resolve.{
  ProviderCandidate, client_for, candidate, resolve_model, provider_key_for_model,
  provider_and_upstream_for_model,
}
use moon_bridge.Provider.Resolve.Candidates.{IsServed, resolve_model_dynamic}
use moon_bridge.Provider.Resolve.Agreement.{
  client_for_agrees, IsClash, IsDefaulted, client_for-resolve_model,
}

program : Unit {0}
unfolding get put has entry_less insert_entry sort_entries client_of build_clients default_key_of
    entries_of index_append index_names index_offers is_offered build_index new_manager parse
    moon_bridge.ModelRef.parse_parens moon_bridge.ModelRef.split_last
    moon_bridge.ModelRef.trim_space moon_bridge.ModelRef.strip_last moon_bridge.ModelRef.parse_slash
    moon_bridge.ModelRef.cut client_for
program = tt

abbrev provider : String → List OfferEntry → ProviderConfig
provider url offers = record {
  base_url = url;
  api_key = "k";
  version = "";
  user_agent = "";
  protocol = "anthropic";
  http = "";
  web_search_support = "";
  model_names = "glm" ∷ "kimi" ∷ [];
  models = [];
  offers = offers;
}

abbrev offer : ℕ → OfferEntry
offer n = record { model = "glm"; upstream_name = ""; priority = pos n }

abbrev zed : ProviderConfig
zed = provider "https://z" (offer 2 ∷ [])

abbrev default : ProviderConfig
default = provider "https://d" (offer 1 ∷ [])

abbrev providers : GoMap String ProviderConfig
providers = ("zed", zed) ∷ ("default", default) ∷ []

abbrev swapped : GoMap String ProviderConfig
swapped = ("default", default) ∷ ("zed", zed) ∷ []

abbrev alias : String
alias = "zed/fast"

abbrev routes : GoMap String ModelRoute
routes = (alias, record { provider = "default"; name = "kimi" }) ∷ []

abbrev manager : ProviderManager
manager = record {
  clients = ("zed", client_of zed) ∷ ("default", client_of default) ∷ [];
  providers = providers;
  routes = routes;
  default_k = "default";
  resolved_ws = [];
  model_providers = build_index providers [];
}

made : new_manager providers routes ≡ ok manager
unfolding program
made = refl

abbrev entry : String → ℕ → ModelProviderEntry
entry key n = record { provider_key = key; priority = pos n }

entries_of-index_example :
    entries_of "glm" (build_index providers []) ≡ scan_entries "glm" providers
entries_of-index_example = entries_of-index "glm" providers

sorted_index-perm_example :
    sort_entries (entries_of "glm" (build_index providers []))
    ≡ sort_entries (entries_of "glm" (build_index swapped []))
sorted_index-perm_example = sorted_index-perm "glm" (Permᴰ.swap refl refl)

new_manager-IsBuilt_example : IsBuilt manager
new_manager-IsBuilt_example = new_manager-IsBuilt providers routes made

abbrev definition : ProviderDef
definition = record {
  base_url = "";
  api_key = "";
  version = "";
  user_agent = "";
  protocol = "openai-chat";
  web_search_support = "";
  models = [];
  offers = [];
}

abbrev broken : GoMap String ProviderDef
broken = ("b", definition) ∷ []

reload_atomic_example :
    ((reload broken [] manager).1 ≢ none × ((reload broken [] manager).0 ≡ manager))
    ⊎ (((reload broken [] manager).1 ≡ none)
        × (new_manager (build_provider_defs broken) (build_model_routes [])
            ≡ ok (reload broken [] manager).0)
        × IsBuilt (reload broken [] manager).0)
reload_atomic_example = reload_atomic broken [] manager

two_entries : entries_of "glm" manager.model_providers ≡ entry "zed" 2 ∷ entry "default" 1 ∷ []
unfolding program
two_entries = refl

manager-IsBuilt : IsBuilt manager
manager-IsBuilt = new_manager-IsBuilt providers routes made

no_alias : get "glm" manager.routes ≡ none
unfolding program
no_alias = refl

bare : (parse "glm").0 ≡ ""
unfolding program
bare = refl

entries_there : entries_of "glm" manager.model_providers ≢ []
entries_there e = let two : entry "zed" 2 ∷ entry "default" 1 ∷ [] ≡ [] = sym two_entries ∙ e in cc

resolve_model_dynamic_example :
    (cs : List ProviderCandidate) × (es : List ModelProviderEntry) × (resolve_model manager "glm"
      ≡ ok cs)
    × (map (λ c. c.provider_key) cs ≡ map (λ e. e.provider_key) es)
    × Permᴰ es (entries_of "glm" manager.model_providers)
    × AreInOrder es
    × All (IsServed manager) cs
resolve_model_dynamic_example =
    resolve_model_dynamic manager "glm" manager-IsBuilt no_alias bare entries_there

reference_client : client_for manager alias ≡ ok ("fast", client_of zed)
unfolding program
reference_client = refl

client_for_agrees_example :
    (get (provider_key_for_model manager alias) manager.clients ≡ some (client_of zed))
    × ((provider_and_upstream_for_model manager alias
          ≡ some (provider_key_for_model manager alias, "fast"))
        ⊎ (manager.default_k ≡ ""))
client_for_agrees_example = client_for_agrees manager alias "fast" (client_of zed) reference_client

-- The alias also reads as a reference.
client_for-resolve_model_example :
    (resolve_model manager alias
      ≡ ok (candidate manager (provider_key_for_model manager alias) "fast" (client_of zed) ∷ []))
    ⊎ (IsClash manager alias "fast" (client_of zed)
        ⊎ IsDefaulted manager alias "fast" (client_of zed))
client_for-resolve_model_example =
    client_for-resolve_model manager alias "fast" (client_of zed) reference_client
