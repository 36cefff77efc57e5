-- ===== src/Provider/Resolve/Candidates.antt =====
-- The candidates that `ResolveModel` returns.
use mathlib.Core.List.Permᴰ
use mathlib.Core.List.{Permᴰ}
use moon_bridge.Prelude.{
  String, ◌≡◌, refl, ◌∙◌, ap, ◌≢◌, inl, inr, Option, none, some, List, [], ◌∷◌, map, ◌==◌,
  string_comparable, All, Bool-cases, Option-cases,
}
use moon_bridge.Prelude.GoMap.{get}
use moon_bridge.ModelRef.{parse}
use moon_bridge.Provider.Order.{ModelProviderEntry, sort_entries}
use moon_bridge.Provider.Order.Laws.{
  AreInOrder, perm-sort_entries, sort_entries-AreInOrder, sort_entries-ne-nil,
}
use moon_bridge.Provider.Manager.{Client, ProviderManager, Result, ok, err, Error, entries_of}
use moon_bridge.Provider.Manager.Built.{IsBuilt}
use moon_bridge.Provider.Resolve.{
  ProviderCandidate, ResolvedRoute, route_key, protocol_for_key, candidate, candidates_for,
  nonempty_or, resolve_dynamic, single, resolve_model,
}

-- A candidate with the client and the protocol of its provider.
abbrev pub IsServed : ProviderManager → ProviderCandidate → Type 0
IsServed pm c =
    (get c.provider_key pm.clients ≡ some c.client)
    × (c.protocol ≡ protocol_for_key pm c.provider_key)

-- The entry's provider has a client.
abbrev pub HasClient : ProviderManager → ModelProviderEntry → Type 0
HasClient pm e = (c : Client) × (get e.provider_key pm.clients ≡ some c)

module _ (pm : ProviderManager) (name : String) where
  candidate-IsServed :
      (key upstream : String) (c : Client)
      → get key pm.clients ≡ some c
      → IsServed pm (candidate pm key upstream c)
  unfolding candidate
  candidate-IsServed key upstream c h = (h, refl)

  candidates_for-IsServed :
      (es : List ModelProviderEntry) → All (IsServed pm) (candidates_for pm name es)
  unfolding candidates_for
  candidates_for-IsServed [] = tt
  candidates_for-IsServed (e ∷ es) = elim (Option-cases (get e.provider_key pm.clients)) [
    | inl none_there ↦ rw (none_there, candidates_for) (candidates_for-IsServed es)
    | inr (c, found) ↦
        rw (found, candidates_for)
          (candidate-IsServed e.provider_key name c found, candidates_for-IsServed es)
  ]

  -- Where every entry has a client, none is skipped.
  keys-candidates_for :
      (es : List ModelProviderEntry)
      → All (HasClient pm) es
      → map (λ c. c.provider_key) (candidates_for pm name es) ≡ map (λ e. e.provider_key) es
  unfolding candidates_for candidate
  keys-candidates_for [] h = refl
  keys-candidates_for (e ∷ es) h =
      rw (h.0.1, candidates_for) (ap (◌∷◌ e.provider_key) (keys-candidates_for es h.1))

  -- What `ResolveModel` may answer: candidates, at least one, each with the client and the
  -- protocol of its provider.
  abbrev pub Resolves : Result ResolvedRoute → Type 0
  Resolves (ok cs) = (cs ≢ []) × All (IsServed pm) cs
  Resolves (err e) = Unit

  single-Resolves :
      (key upstream : String) (e : Error) (o : Option Client)
      → get key pm.clients ≡ o
      → Resolves (single pm key upstream e o)
  single-Resolves key upstream e none h = tt
  single-Resolves key upstream e (some c) h = ((λ q. cc), (candidate-IsServed key upstream c h, tt))

  nonempty_or-Resolves :
      (e : Error) (cs : ResolvedRoute) → All (IsServed pm) cs → Resolves (nonempty_or e cs)
  nonempty_or-Resolves e [] h = tt
  nonempty_or-Resolves e (c ∷ cs) h = ((λ q. cc), h)

  resolve_dynamic-Resolves : (es : List ModelProviderEntry) → Resolves (resolve_dynamic pm name es)
  unfolding resolve_dynamic
  resolve_dynamic-Resolves [] = tt
  resolve_dynamic-Resolves (e ∷ es) = nonempty_or-Resolves _ _ (candidates_for-IsServed _)

  -- When `ResolveModel` answers, there is at least one candidate, and each has the client and the
  -- protocol of its provider.
  pub resolve_model-Resolves : Resolves (resolve_model pm name)
  unfolding resolve_model
  resolve_model-Resolves = elim (Option-cases (get name pm.routes)) [
    | inr (route, found) ↦
        rw (found, resolve_model) (single-Resolves (route_key pm route) route.name _ _ refl)
    | inl no_route_there ↦
        rw (no_route_there, resolve_model)
          (elim (Bool-cases ((parse name).0 == "")) [
            | inl bare ↦ rw bare (resolve_dynamic-Resolves _)
            | inr direct ↦ rw direct (single-Resolves (parse name).0 (parse name).1 _ _ refl)
          ])
  ]

All-perm :
    (P : ModelProviderEntry → Type 0) {xs ys : List ModelProviderEntry}
    → Permᴰ xs ys
    → All P xs
    → All P ys
All-perm P Permᴰ.nil h = tt
All-perm P (Permᴰ.cons e p) h = (rw e at h.0, All-perm P p h.1)
All-perm P (Permᴰ.swap e f) h = (rw f at h.1.0, (rw e at h.0, h.1.1))
All-perm P (Permᴰ.trans p q) h = All-perm P q (All-perm P p h)

nonempty_or_ok : (e : Error) (cs : ResolvedRoute) → cs ≢ [] → nonempty_or e cs ≡ ok cs
nonempty_or_ok e [] h = absurd (h refl)
nonempty_or_ok e (c ∷ cs) h = refl

map-ne-nil :
    (es : List ModelProviderEntry) (cs : ResolvedRoute)
    → es ≢ []
    → map (λ c. c.provider_key) cs ≡ map (λ e. e.provider_key) es
    → cs ≢ []
map-ne-nil [] cs h e = absurd (h refl)
map-ne-nil (x ∷ es) [] h e = cc
map-ne-nil (x ∷ es) (c ∷ cs) h e = λ q. cc

resolve_dynamic_lem :
    (pm : ProviderManager) (name : String) (es : List ModelProviderEntry)
    → All (HasClient pm) es
    → es ≢ []
    → (cs : ResolvedRoute) × (resolve_dynamic pm name es ≡ ok cs)
      × All (IsServed pm) cs
      × (map (λ c. c.provider_key) cs ≡ map (λ e. e.provider_key) (sort_entries es))
resolve_dynamic_lem pm name [] h ne = absurd (ne refl)
resolve_dynamic_lem pm name (e ∷ es) h ne =
    let sorted = sort_entries (e ∷ es) in
    let keys =
      keys-candidates_for pm name sorted
        (All-perm (HasClient pm) (Permᴰ.symm (perm-sort_entries (e ∷ es))) h) in
    (
      candidates_for pm name sorted,
      unfold resolve_dynamic in
          nonempty_or_ok _ _
            (map-ne-nil sorted (candidates_for pm name sorted) (sort_entries-ne-nil e es) keys),
      candidates_for-IsServed pm name sorted,
      keys,
    )

resolve_model_bare :
    (pm : ProviderManager) (name : String)
    → get name pm.routes ≡ none
    → (parse name).0 ≡ ""
    → resolve_model pm name ≡ resolve_dynamic pm name (entries_of name pm.model_providers)
unfolding resolve_model
resolve_model_bare pm name no_alias bare = rw (no_alias, resolve_model) (rw bare)

-- For a manager as `NewProviderManager` leaves it, a name that is no alias, names no provider and
-- is offered by some provider resolves without error to candidates with the keys of a
-- rearrangement of all its entries in which every entry has a lower number for its priority than
-- any behind it, or the same number and a key that is not greater. Each candidate has the client
-- and the protocol of its provider.
pub resolve_model_dynamic :
    (pm : ProviderManager) (name : String)
    → IsBuilt pm
    → get name pm.routes ≡ none
    → (parse name).0 ≡ ""
    → entries_of name pm.model_providers ≢ []
    → (cs : ResolvedRoute) × (es : List ModelProviderEntry) × (resolve_model pm name ≡ ok cs)
      × (map (λ c. c.provider_key) cs ≡ map (λ e. e.provider_key) es)
      × Permᴰ es (entries_of name pm.model_providers)
      × AreInOrder es
      × All (IsServed pm) cs
resolve_model_dynamic pm name built no_alias bare offered =
    let entries = entries_of name pm.model_providers in
    let (cs, result, served, keys) =
      resolve_dynamic_lem pm name entries (built.entries name) offered in
    (
      cs,
      sort_entries entries,
      (resolve_model_bare pm name no_alias bare ∙ result),
      keys,
      perm-sort_entries entries,
      sort_entries-AreInOrder entries,
      served,
    )
