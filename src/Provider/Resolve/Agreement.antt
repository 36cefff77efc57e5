-- ===== src/Provider/Resolve/Agreement.antt =====
-- How the partial resolutions of `ProviderManager` agree, and where they differ.
use text.Mathlib.TextEquality.{eq_iff}
use moon_bridge.Prelude.{
  String, ◌≡◌, ◌≢◌, ◌⊎◌, none, some, [], ◌∷◌, inl, inr, Bool-cases, Option-cases, ◌==◌,
  string_comparable, arith,
}
use moon_bridge.Prelude.GoMap.{get}
use moon_bridge.ModelRef.{parse}
use moon_bridge.Provider.Manager.{ModelRoute, Client, ProviderManager, ok}
use moon_bridge.Provider.Resolve.{
  client_for, candidate, resolve_model, provider_key_for_model, provider_and_upstream_for_model,
}

module _ (pm : ProviderManager) (name : String) where
  -- Whenever `ClientFor` answers, `ProviderKeyForModel` names the provider of its client, and
  -- `ProviderAndUpstreamForModel` names that provider and the same upstream model, unless the
  -- default key is empty.
  pub client_for_agrees :
      (upstream : String) (c : Client)
      → client_for pm name ≡ ok (upstream, c)
      → (get (provider_key_for_model pm name) pm.clients ≡ some c)
        × ((provider_and_upstream_for_model pm name
              ≡ some (provider_key_for_model pm name, upstream))
            ⊎ (pm.default_k ≡ ""))
  unfolding client_for provider_key_for_model provider_and_upstream_for_model
  client_for_agrees upstream c h = (ground arith, ground (arith, eq_iff pm.default_k ""))

  -- The name is an alias and reads as a reference to a configured provider as well, and the answer
  -- is that of the reference.
  abbrev pub IsClash : String → Client → Type 0
  IsClash upstream c =
      (route : ModelRoute) × (get name pm.routes ≡ some route)
      × ((parse name).0 ≢ "")
      × (get (parse name).0 pm.clients ≡ some c)
      × (upstream ≡ (parse name).1)

  -- The name is no alias and no reference to a configured provider, and the
  -- answer is that of the default provider.
  abbrev pub IsDefaulted : String → Client → Type 0
  IsDefaulted upstream c =
      (get name pm.routes ≡ none)
      × (((parse name).0 ≡ "") ⊎ (get (parse name).0 pm.clients ≡ none))
      × (get pm.default_k pm.clients ≡ some c)
      × (upstream ≡ name)

  -- Whenever `ClientFor` answers with an upstream model and a client, `ResolveModel` answers with
  -- exactly one candidate, which has that upstream model, that client and the key that
  -- `ProviderKeyForModel` gives, unless the name is an alias and also reads as a reference to a
  -- configured provider, in which case `ClientFor` answers for the reference, or it is neither an
  -- alias nor a reference to a configured provider, in which case `ClientFor` answers with the
  -- name itself and the client of the default provider.
  pub client_for-resolve_model :
      (upstream : String) (c : Client)
      → client_for pm name ≡ ok (upstream, c)
      → (resolve_model pm name ≡ ok (candidate pm (provider_key_for_model pm name) upstream c ∷ []))
        ⊎ (IsClash upstream c ⊎ IsDefaulted upstream c)
  unfolding client_for resolve_model provider_key_for_model
  client_for-resolve_model upstream c h = elim (Option-cases (get name pm.routes)) [
    | inl no_alias ↦ elim (Bool-cases ((parse name).0 == "")) [
      | inl bare ↦ inr (
          inr
            (no_alias, inl (ground (arith, eq_iff (parse name).0 "")), ground arith, ground arith))
      | inr refers ↦ elim (Option-cases (get (parse name).0 pm.clients)) [
        | inl unknown ↦ inr (inr (no_alias, inr unknown, ground arith, ground arith))
        | inr (d, known) ↦ inl (ground arith)
      ]
    ]
    | inr (route, alias) ↦ elim (Bool-cases ((parse name).0 == "")) [
      | inl bare ↦ inl (ground arith)
      | inr refers ↦ elim (Option-cases (get (parse name).0 pm.clients)) [
        | inl unknown ↦ inl (ground arith)
        | inr (d, known) ↦ inr (
            inl
              (route, alias, ground (arith, eq_iff (parse name).0 ""), ground arith, ground arith))
      ]
    ]
  ]
