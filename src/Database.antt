-- ===== src/Database.antt =====
-- internal/db/registry.go: the choice of the database provider, and how each consumer gets its tables
-- and its store, with the helpers of internal/db/store.go. What the databases and the consumers answer
-- are parameters: an error, or none.
pub mod Tables
pub mod Selection
pub mod Startup
mod Tests
use moon_bridge.Prelude.{
  String, Bool, true, false, not, ◌&&◌, ◌||◌, ◌⊎◌, inl, inr, Option, none, some, List, [], ◌∷◌,
  ◌++◌, if◌then◌else◌, ◌==◌, string_comparable, is_empty,
}
use moon_bridge.Prelude.GoMap.{GoMap, get, put, delete}
use moon_bridge.Database.Tables.{
  Error, no_provider, multiple_providers, provider_not_found, external, TableSpec, IndexSpec,
  BoundStore, new_bound_store, validate_consumer_tables, render_ddl, real_table, real_index,
}

-- `Provider`, with what its `Open` and `Ping` answer.
pub record Provider : Type 0 where
  pub name : String
  pub opens : Option String
  pub pings : Option String

-- `Consumer`, with what its `BindStore` answers.
pub record Consumer : Type 0 where
  pub name : String
  pub tables : List TableSpec
  pub binds : Option String

-- `Registry`. The consumers that `DisablePersistence` was called on are listed in order.
pub record Registry : Type 0 where
  pub providers : List Provider
  pub consumers : List Consumer
  pub active : Option Provider
  pub stores : GoMap String BoundStore
  pub disabled : List (String × Error)

-- `NewRegistry`
abbrev pub new_registry : Registry
new_registry = record { providers = []; consumers = []; active = none; stores = []; disabled = [] }

unfoldable pub has_provider : String → List Provider → Bool
has_provider name [] = false
has_provider name (p ∷ ps) = p.name == name || has_provider name ps

-- `RegisterProvider`
unfoldable pub register_provider : Provider → Registry → Registry
register_provider p r =
    if has_provider p.name r.providers then r else record r { providers = r.providers ++ p ∷ [] }

unfoldable pub has_consumer : String → List Consumer → Bool
has_consumer name [] = false
has_consumer name (c ∷ cs) = c.name == name || has_consumer name cs

-- `RegisterConsumer`
unfoldable pub register_consumer : Consumer → Registry → Registry
register_consumer c r =
    if has_consumer c.name r.consumers then r else record r { consumers = r.consumers ++ c ∷ [] }

-- The first provider of the name, in the loop of `selectProvider`.
unfoldable pub find_provider : String → List Provider → Option Provider
find_provider name [] = none
find_provider name (p ∷ ps) = if p.name == name then some p else find_provider name ps

-- `selectProvider`, for providers that are all there.
unfoldable pub select_provider : String → List Provider → Error ⊎ Provider
select_provider name [] = inl no_provider
select_provider name (p ∷ []) =
    if name == "" || name == p.name then inr p else inl (provider_not_found name)
select_provider name (p ∷ q ∷ ps) =
    if name == "" then inl multiple_providers else elim (find_provider name (p ∷ q ∷ ps)) [
      | none ↦ inl (provider_not_found name)
      | some found ↦ inr found
    ]

module _ (exec : String → Option String) where
  -- The loop over the indexes of one table; `exec` is the answer to a statement.
  unfoldable pub create_indexes : String → String → List IndexSpec → Option Error
  create_indexes consumer table [] = none
  create_indexes consumer table (i ∷ is) =
      let rest = create_indexes consumer table is in
      elim (render_ddl i.sql (real_table consumer table) (real_index consumer table i.name)) [
        | inl e ↦ some e
        | inr ddl ↦ elim (exec ddl) [ some e ↦ some (external e) | none ↦ rest ]
      ]

  -- The loop over the tables of a consumer.
  unfoldable pub create_tables : String → List TableSpec → Option Error
  create_tables consumer [] = none
  create_tables consumer (t ∷ ts) =
      let rest = create_tables consumer ts in
      elim (render_ddl t.schema (real_table consumer t.name) "") [
        | inl e ↦ some e
        | inr ddl ↦ elim (exec ddl) [
          | some e ↦ some (external e)
          | none ↦ elim (create_indexes consumer t.name t.indexes) [ some e ↦ some e | none ↦ rest ]
        ]
      ]

  -- `initConsumer`: the error if there is one, and the stores.
  unfoldable pub init_consumer :
      Consumer → GoMap String BoundStore → Option Error × GoMap String BoundStore
  init_consumer c stores = elim (validate_consumer_tables c.name c.tables) [
    | some e ↦ (some e, stores)
    | none ↦ elim (create_tables c.name c.tables) [
      | some e ↦ (some e, stores)
      | none ↦ elim c.binds [
        | some e ↦
            (some (external e), delete c.name (put c.name (new_bound_store c.name c.tables) stores))
        | none ↦ (none, put c.name (new_bound_store c.name c.tables) stores)
      ]
    ]
  ]

  -- The loop of `Init` over the consumers.
  unfoldable pub init_consumers : List Consumer → Registry → Registry
  init_consumers [] r = r
  init_consumers (c ∷ cs) r =
      let (failed, stores) = init_consumer c r.stores in
      init_consumers cs (record r {
        stores = stores;
        disabled = elim failed [ none ↦ r.disabled | some e ↦ r.disabled ++ (c.name, e) ∷ [] ];
      })

  -- `disableAllConsumers`
  unfoldable pub disable_all_consumers : Error → List Consumer → List (String × Error)
  disable_all_consumers reason [] = []
  disable_all_consumers reason (c ∷ cs) = (c.name, reason) ∷ disable_all_consumers reason cs

  -- What follows the choice of a provider in `Init`.
  unfoldable pub start : Registry → Provider → Option Error × Registry
  start r p = elim p.opens [
    | some e ↦ (some (external e), record r { active = some p })
    | none ↦ elim p.pings [
      | some e ↦ (some (external e), record r { active = some p })
      | none ↦ (none, init_consumers r.consumers (record r { active = some p }))
    ]
  ]

  unfoldable pub is_no_provider : Error → Bool
  is_no_provider no_provider = true
  is_no_provider _ = false

  -- `Init`: the error if there is one, and the registry.
  unfoldable pub init : String → Registry → Option Error × Registry
  init name r =
      if is_empty r.consumers then (none, r) else elim (select_provider name r.providers) [
        | inl e ↦
            if is_no_provider e
            then (none, record r { disabled = r.disabled ++ disable_all_consumers e r.consumers })
            else (some e, r)
        | inr p ↦ start r p
      ]

-- `StoreForConsumer`
abbrev pub store_for_consumer : String → Registry → Option BoundStore
store_for_consumer name r = get name r.stores
