-- ===== src/Database/Startup.antt =====
-- How `Init` ends: every consumer has its store or is disabled with a reason.
use text.Mathlib.TextEquality.{eq_iff}
use moon_bridge.Prelude.{
  String, ◌≡◌, refl, sym, ap, ◌∙◌, ◌⊎◌, inl, inr, true, false, Option, none, some, List, [], ◌∷◌,
  ◌++◌, if◌then◌else◌, ◌==◌, string_comparable, is_empty, arith, Bool-cases, Option-cases, In, All,
}
use mathlib.Core.List.{append_assoc}
use mathlib.Core.Path.{subst}
use moon_bridge.Prelude.Lists.{All-map_imp, In-append_left, In-append_right}
use moon_bridge.Prelude.GoMap.{GoMap, get, put, get-put, get-delete}
use moon_bridge.Database.Tables.{
  Error, external, BoundStore, new_bound_store, validate_consumer_tables,
}
use moon_bridge.Database.{
  Provider, Consumer, Registry, has_consumer, init_consumer, init_consumers, create_tables, init,
  start, select_provider, is_no_provider, disable_all_consumers,
}

module _ (exec : String → Option String) where
  -- The consumer has its store, or is among the disabled.
  abbrev pub IsSettled : Registry → Consumer → Type 0
  IsSettled r c =
      (get c.name r.stores ≡ some (new_bound_store c.name c.tables))
      ⊎ ((e : Error) × In (c.name, e) r.disabled)

  init_consumer_cases :
      (c : Consumer) (stores : GoMap String BoundStore)
      → ((init_consumer exec c stores).0 ≡ none
          × (get c.name (init_consumer exec c stores).1 ≡ some (new_bound_store c.name c.tables)))
        ⊎ ((e : Error) × ((init_consumer exec c stores).0 ≡ some e))
  unfolding init_consumer
  init_consumer_cases c stores = elim (Option-cases (validate_consumer_tables c.name c.tables)) [
    | inr (e, bad) ↦ inr (e, rw (bad, init_consumer) refl)
    | inl good ↦ elim (Option-cases (create_tables exec c.name c.tables)) [
      | inr (e, failed) ↦ inr (e, rw (good, init_consumer) (rw (failed, init_consumer) refl))
      | inl created ↦ elim (Option-cases c.binds) [
        | inr (e, unbound) ↦ inr (
          external e,
          rw (good, init_consumer) (rw (created, init_consumer) (rw (unbound, init_consumer) refl)),
        )
        | inl bound ↦ inl (
            rw (good, init_consumer)
              (rw (created, init_consumer)
                (rw (bound, init_consumer)
                  (
                    refl,
                    ground (
                      arith,
                      get-put c.name c.name (new_bound_store c.name c.tables) stores,
                      eq_iff c.name c.name,
                    ),
                  ))))
      ]
    ]
  ]

  init_consumer_others :
      (c : Consumer) (stores : GoMap String BoundStore) (name : String)
      → (c.name == name) ≡ false
      → get name (init_consumer exec c stores).1 ≡ get name stores
  unfolding init_consumer
  init_consumer_others c stores name other =
      elim (Option-cases (validate_consumer_tables c.name c.tables)) [
        | inr (e, bad) ↦ rw (bad, init_consumer) refl
        | inl good ↦ elim (Option-cases (create_tables exec c.name c.tables)) [
          | inr (e, failed) ↦ rw (good, init_consumer) (rw (failed, init_consumer) refl)
          | inl created ↦ elim (Option-cases c.binds) [
            | inr (e, unbound) ↦
                rw (good, init_consumer)
                  (rw (created, init_consumer)
                    (rw (unbound, init_consumer)
                      (ground (
                        arith,
                        get-delete c.name name
                            (put c.name (new_bound_store c.name c.tables) stores),
                        get-put c.name name (new_bound_store c.name c.tables) stores,
                      ))))
            | inl bound ↦
                rw (good, init_consumer)
                  (rw (created, init_consumer)
                    (rw (bound, init_consumer)
                      (ground
                        (arith, get-put c.name name (new_bound_store c.name c.tables) stores))))
          ]
        ]
      ]

  -- The registry after one consumer.
  abbrev after : Consumer → Registry → Registry
  after c r = record r {
    stores = (init_consumer exec c r.stores).1;
    disabled = elim (init_consumer exec c r.stores).0 [
      | none ↦ r.disabled
      | some e ↦ r.disabled ++ (c.name, e) ∷ []
    ];
  }

  after_disabled :
      (c : Consumer) (r : Registry) (x : String × Error)
      → In x r.disabled
      → In x (after c r).disabled
  after_disabled c r x i = elim (Option-cases (init_consumer exec c r.stores).0) [
    | inl worked ↦ rw (worked, after) i
    | inr (e, failed) ↦ rw (failed, after) (In-append_left x r.disabled ((c.name, e) ∷ []) i)
  ]

  init_consumers_disabled :
      (cs : List Consumer) (r : Registry) (x : String × Error)
      → In x r.disabled
      → In x (init_consumers exec cs r).disabled
  unfolding init_consumers
  init_consumers_disabled [] r x i = i
  init_consumers_disabled (c ∷ cs) r x i =
      init_consumers_disabled cs (after c r) x (after_disabled c r x i)

  init_consumers_others :
      (cs : List Consumer) (r : Registry) (name : String)
      → has_consumer name cs ≡ false
      → get name (init_consumers exec cs r).stores ≡ get name r.stores
  unfolding init_consumers has_consumer
  init_consumers_others [] r name h = refl
  init_consumers_others (c ∷ cs) r name h =
      init_consumers_others cs (after c r) name (ground arith)
      ∙ init_consumer_others c r.stores name (ground arith)

  -- Consumers with distinct names, as `RegisterConsumer` keeps them.
  abbrev pub Distinct : List Consumer → Type 0
  Distinct [] = Unit
  Distinct (c ∷ cs) = (has_consumer c.name cs ≡ false) × Distinct cs

  IsSettled-after : (c : Consumer) (r : Registry) → IsSettled (after c r) c
  IsSettled-after c r = elim (init_consumer_cases c r.stores) [
    | inl (worked, stored) ↦ inl stored
    | inr (e, failed) ↦ inr (
      e,
      rw (failed, after) (In-append_right (c.name, e) r.disabled ((c.name, e) ∷ []) (inl refl)),
    )
  ]

  IsSettled-init_consumers :
      (c : Consumer) (cs : List Consumer) (r : Registry)
      → has_consumer c.name cs ≡ false
      → IsSettled r c
      → IsSettled (init_consumers exec cs r) c
  IsSettled-init_consumers c cs r new (inl stored) =
      inl (init_consumers_others cs r c.name new ∙ stored)
  IsSettled-init_consumers c cs r new (inr (e, off)) =
      inr (e, init_consumers_disabled cs r (c.name, e) off)

  pub init_consumers-IsSettled :
      (cs : List Consumer) (r : Registry)
      → Distinct cs
      → All (IsSettled (init_consumers exec cs r)) cs
  unfolding init_consumers
  init_consumers-IsSettled [] r d = tt
  init_consumers-IsSettled (c ∷ cs) r d = (
    IsSettled-init_consumers c cs (after c r) d.0 (IsSettled-after c r),
    init_consumers-IsSettled cs (after c r) d.1,
  )

  disable_all_consumers-In :
      (reason : Error) (cs : List Consumer) (before : List (String × Error))
      → All (λ c. (e : Error) × In (c.name, e) (before ++ disable_all_consumers exec reason cs)) cs
  unfolding disable_all_consumers
  disable_all_consumers-In reason [] before = tt
  disable_all_consumers-In reason (c ∷ cs) before = (
    (reason, In-append_right (c.name, reason) before _ (inl refl)),
    subst (λ l. All (λ x. (e : Error) × In (x.name, e) l) cs)
        (append_assoc before ((c.name, reason) ∷ []) (disable_all_consumers exec reason cs))
        (disable_all_consumers-In reason cs (before ++ (c.name, reason) ∷ [])),
  )

  start-IsSettled :
      (r : Registry) (p : Provider)
      → Distinct r.consumers
      → (start exec r p).0 ≡ none
      → All (IsSettled (start exec r p).1) r.consumers
  unfolding start
  start-IsSettled r p d h = elim (Option-cases p.opens) [
    | inr (e, closed) ↦ absurd (ground arith)
    | inl opened ↦ elim (Option-cases p.pings) [
      | inr (e, dead) ↦ absurd (ground arith)
      | inl alive ↦
          rw (opened, start)
            (rw (alive, start)
              (init_consumers-IsSettled r.consumers (record r { active = some p }) d))
    ]
  ]

  started_eqn :
      (name : String) (r : Registry) (p : Provider)
      → is_empty r.consumers ≡ false
      → select_provider name r.providers ≡ inr p
      → init exec name r ≡ start exec r p
  unfolding init
  started_eqn name r p some_there chosen = rw some_there (rw (chosen, init) refl)

  refused_eqn :
      (name : String) (r : Registry) (e : Error)
      → is_empty r.consumers ≡ false
      → select_provider name r.providers ≡ inl e
      → init exec name r ≡ (
          if is_no_provider exec e
          then (
            none,
            record r { disabled = r.disabled ++ disable_all_consumers exec e r.consumers },
          )
          else (some e, r))
  unfolding init
  refused_eqn name r e some_there refused = rw some_there (rw (refused, init) refl)

  All-empty : (P : Consumer → Type 0) (cs : List Consumer) → is_empty cs ≡ true → All P cs
  All-empty P [] h = tt
  All-empty P (c ∷ cs) h = absurd (ground arith)

  -- If the consumers have distinct names and `Init` returns no error, every consumer has the
  -- store of its own tables, or is among the disabled with a reason.
  pub init-IsSettled :
      (name : String) (r : Registry)
      → Distinct r.consumers
      → (init exec name r).0 ≡ none
      → All (IsSettled (init exec name r).1) r.consumers
  init-IsSettled name r d h = elim (Bool-cases (is_empty r.consumers)) [
    | inl nobody ↦ All-empty _ r.consumers nobody
    | inr some_there ↦ go some_there (select_provider name r.providers) refl
  ]
    where
      go :
          is_empty r.consumers ≡ false
          → (s : Error ⊎ Provider) → select_provider name r.providers ≡ s
          → All (IsSettled (init exec name r).1) r.consumers
      go some_there (inr p) chosen =
          let eqn = started_eqn name r p some_there chosen in
          rw eqn (start-IsSettled r p d (sym (ap (λ x. x.0) eqn) ∙ h))
      go some_there (inl e) refused =
          let eqn = refused_eqn name r e some_there refused in
          elim (Bool-cases (is_no_provider exec e)) [
            | inl none_there ↦ rw eqn (
                rw none_there (
                  All-map_imp _ _ r.consumers (λ x y. inr y)
                    (disable_all_consumers-In e r.consumers r.disabled)))
            | inr other ↦ absurd (ground arith)
          ]
