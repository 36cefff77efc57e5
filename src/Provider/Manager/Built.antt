-- ===== src/Provider/Manager/Built.antt =====
-- What `NewProviderManager` leaves: clients, default key and index that fit together.
use text.Mathlib.TextEquality.{eq_iff}
use moon_bridge.Prelude.{
  String, ◌≡◌, refl, ◌∙◌, ◌≢◌, ◌⊎◌, inl, inr, true, false, not, ◌&&◌, none, some, List, [], ◌∷◌,
  ◌==◌, string_comparable, All, All-append, arith, Bool-cases, Option-cases,
}
use mathlib.Core.Option
use moon_bridge.Prelude.Lists.{All-map_imp}
use moon_bridge.Prelude.Int.{ℤ, pos}
use moon_bridge.Prelude.GoMap.{GoMap, get, has, get-has}
use moon_bridge.Provider.Order.{ModelProviderEntry}
use moon_bridge.Provider.Manager.{
  OfferEntry, ProviderConfig, ModelRoute, Client, ProviderManager, Result, ok, err, client_of,
  build_clients, default_key_of, offer_model, is_offered, entries_of, build_index, new_manager,
  ProviderDef, RouteEntry, build_provider_defs, build_model_routes, reload,
}
use moon_bridge.Provider.Manager.Index.{
  named_entries, offered_entries, entries_at, scan_entries, entries_of-index,
}

-- The entry's provider is one of the map.
abbrev pub IsKnown : {V : Type 0} → GoMap String V → ModelProviderEntry → Type 0
IsKnown ps e = has e.provider_key ps ≡ true

IsKnown-cons :
    (key : String) (cfg : ProviderConfig) (ps : GoMap String ProviderConfig)
    (e : ModelProviderEntry)
    → IsKnown ps e
    → IsKnown ((key, cfg) ∷ ps) e
unfolding has
IsKnown-cons key cfg ps e h = ground arith

IsKnown-head :
    (key : String) (cfg : ProviderConfig) (ps : GoMap String ProviderConfig) (z : ℤ)
    → IsKnown ((key, cfg) ∷ ps) (record { provider_key = key; priority = z })
unfolding has
IsKnown-head key cfg ps z = ground (arith, eq_iff key key)

module _ (m key : String) (cfg : ProviderConfig) (ps : GoMap String ProviderConfig) where
  named_entries-IsKnown :
      (os : List OfferEntry) (ns : List String)
      → All (IsKnown ((key, cfg) ∷ ps)) (named_entries m key os ns)
  unfolding named_entries
  named_entries-IsKnown os [] = tt
  named_entries-IsKnown os (n ∷ ns) = elim (Bool-cases (n == m && not (is_offered n os))) [
    | inl t ↦ rw t (IsKnown-head key cfg ps (pos 0), named_entries-IsKnown os ns)
    | inr f ↦ rw f (named_entries-IsKnown os ns)
  ]

  offered_entries-IsKnown :
      (os : List OfferEntry) → All (IsKnown ((key, cfg) ∷ ps)) (offered_entries m key os)
  unfolding offered_entries
  offered_entries-IsKnown [] = tt
  offered_entries-IsKnown (o ∷ os) =
      elim (Bool-cases (offer_model o == m && not (offer_model o == ""))) [
        | inl t ↦ rw t (IsKnown-head key cfg ps o.priority, offered_entries-IsKnown os)
        | inr f ↦ rw f (offered_entries-IsKnown os)
      ]

scan_entries-IsKnown :
    (m : String) (ps : GoMap String ProviderConfig) → All (IsKnown ps) (scan_entries m ps)
scan_entries-IsKnown m [] = tt
scan_entries-IsKnown m ((key, cfg) ∷ ps) =
    All-append (IsKnown ((key, cfg) ∷ ps)) (entries_at m (key, cfg)) (scan_entries m ps)
      (All-append _ (named_entries m key cfg.offers cfg.model_names)
        (offered_entries m key cfg.offers)
        (named_entries-IsKnown m key cfg ps cfg.offers cfg.model_names)
        (offered_entries-IsKnown m key cfg ps cfg.offers))
      (All-map_imp _ _ (scan_entries m ps) (IsKnown-cons key cfg ps) (scan_entries-IsKnown m ps))

build_clients_inv :
    (key : String) (cfg : ProviderConfig) (ps : GoMap String ProviderConfig)
    {cs : GoMap String Client}
    → build_clients ((key, cfg) ∷ ps) ≡ ok cs
    → (cs' : GoMap String Client) × (build_clients ps ≡ ok cs')
      × (cs ≡ (key, client_of cfg) ∷ cs')
      × ((cfg.base_url == "") ≡ false)
unfolding build_clients
build_clients_inv key cfg ps {cs} h = go (build_clients ps) refl
  where
    go :
        (r : Result (GoMap String Client))
        → build_clients ps ≡ r
        → (cs' : GoMap String Client) × (build_clients ps ≡ ok cs')
          × (cs ≡ (key, client_of cfg) ∷ cs')
          × ((cfg.base_url == "") ≡ false)
    go (ok cs') e = (cs', e, ground arith, ground arith)
    go (err x) e = absurd (ground arith)

get-build_clients :
    (ps : GoMap String ProviderConfig) (cs : GoMap String Client)
    → build_clients ps ≡ ok cs
    → (k : String) → get k cs ≡ Option.map client_of (get k ps)
unfolding get build_clients
get-build_clients [] cs h k = ground arith
get-build_clients ((key, cfg) ∷ ps) cs h k =
    let (cs', built, parts, _) = build_clients_inv key cfg ps h in
    rw parts (elim (Bool-cases (key == k)) [
      | inl here ↦ rw here
      | inr there ↦ rw there (get-build_clients ps cs' built k)
    ])

client_at :
    (ps : GoMap String ProviderConfig) (cs : GoMap String Client)
    → build_clients ps ≡ ok cs
    → (k : String) → has k ps ≡ true
    → (c : Client) × (get k cs ≡ some c)
client_at ps cs h k known = elim (Option-cases (get k ps)) [
  | inl missing ↦ cc (get-has k ps missing)
  | inr (cfg, found) ↦ (client_of cfg, get-build_clients ps cs h k ∙ rw found)
]

-- A manager as `NewProviderManager` leaves it: there is a client for exactly the providers, built
-- from their settings, the default key is "" or that of a client, and every entry of the reverse
-- index is of a provider that has a client.
pub record IsBuilt (pm : ProviderManager) : Type 0 where
  pub clients : (k : String) → get k pm.clients ≡ Option.map client_of (get k pm.providers)
  pub default_client : (pm.default_k ≡ "") ⊎ ((c : Client) × (get pm.default_k pm.clients ≡ some c))
  pub entries :
      (m : String)
      → All
          (λ e. (c : Client) × (get e.provider_key pm.clients ≡ some c))
          (entries_of m pm.model_providers)

default_key_cases :
    (ps : GoMap String ProviderConfig)
    → (default_key_of ps ≡ "") ⊎ (has (default_key_of ps) ps ≡ true)
unfolding default_key_of
default_key_cases [] = inl (unfold has in refl)
default_key_cases ((key, cfg) ∷ []) = inr (unfold has in ground (arith, eq_iff key key))
default_key_cases ((key, cfg) ∷ p ∷ ps) = elim (Bool-cases (has "default" ((key, cfg) ∷ p ∷ ps))) [
  | inl there ↦ inr (rw there there)
  | inr absent ↦ inl (rw absent)
]

new_manager_inv :
    (ps : GoMap String ProviderConfig) (routes : GoMap String ModelRoute) {pm : ProviderManager}
    → new_manager ps routes ≡ ok pm
    → (build_clients ps ≡ ok pm.clients)
      × (pm.providers ≡ ps)
      × (pm.routes ≡ routes)
      × (pm.default_k ≡ default_key_of ps)
      × (pm.model_providers ≡ build_index ps [])
unfolding new_manager
new_manager_inv ps routes {pm} h = go (build_clients ps) refl
  where
    go :
        (r : Result (GoMap String Client))
        → build_clients ps ≡ r
        → (build_clients ps ≡ ok pm.clients)
          × (pm.providers ≡ ps)
          × (pm.routes ≡ routes)
          × (pm.default_k ≡ default_key_of ps)
          × (pm.model_providers ≡ build_index ps [])
    go (ok []) e = absurd (ground arith)
    go (ok (c ∷ cs)) e = (ground arith, ground arith, ground arith, ground arith, ground arith)
    go (err x) e = absurd (ground arith)

-- What `NewProviderManager` returns is well built: there is a client for exactly the providers,
-- built from their settings, the default key is empty or has a client, and every entry of the
-- reverse index is of a provider with a client.
pub new_manager-IsBuilt :
    (ps : GoMap String ProviderConfig) (routes : GoMap String ModelRoute) {pm : ProviderManager}
    → new_manager ps routes ≡ ok pm
    → IsBuilt pm
new_manager-IsBuilt ps routes {pm} h =
    let (built, same_ps, _, same_key, same_index) = new_manager_inv ps routes h in
    record {
      clients = λ k. rw same_ps (get-build_clients ps pm.clients built k);
      default_client = rw same_key (elim (default_key_cases ps) [
        | inl unset ↦ inl unset
        | inr there ↦ inr (client_at ps pm.clients built (default_key_of ps) there)
      ]);
      entries = λ m. rw same_index (
          rw (entries_of-index m ps) (
            All-map_imp (IsKnown ps) _ (scan_entries m ps)
              (λ e known. client_at ps pm.clients built e.provider_key known)
              (scan_entries-IsKnown m ps)));
    }

-- `Reload` fails as a whole or succeeds as a whole: with an error the manager is what it was, and
-- without one it is the manager that the new configuration builds, and built as a new one is.
pub reload_atomic :
    (defs : GoMap String ProviderDef) (routes : GoMap String RouteEntry) (pm : ProviderManager)
    → ((reload defs routes pm).1 ≢ none × ((reload defs routes pm).0 ≡ pm))
      ⊎ (((reload defs routes pm).1 ≡ none)
          × (new_manager (build_provider_defs defs) (build_model_routes routes)
              ≡ ok (reload defs routes pm).0)
          × IsBuilt (reload defs routes pm).0)
unfolding reload
reload_atomic defs routes pm =
    go (new_manager (build_provider_defs defs) (build_model_routes routes)) refl
  where
    go :
        (r : Result ProviderManager)
        → new_manager (build_provider_defs defs) (build_model_routes routes) ≡ r
        → ((reload defs routes pm).1 ≢ none × ((reload defs routes pm).0 ≡ pm))
          ⊎ (((reload defs routes pm).1 ≡ none)
              × (new_manager (build_provider_defs defs) (build_model_routes routes)
                  ≡ ok (reload defs routes pm).0)
              × IsBuilt (reload defs routes pm).0)
    go (ok new) e = inr (
      rw (e, reload),
      rw (e, reload),
      rw (e, reload) (new_manager-IsBuilt (build_provider_defs defs) (build_model_routes routes) e),
    )
    go (err x) e = inl ((λ n. ground arith), ground arith)
