-- ===== src/Plugins/Hooks/Laws.antt =====
-- The nested closures of `CorePluginHooks` against what plugins do in turn.
use mathlib.Core.List.{append_assoc, append-nil}
use text.Mathlib.TextEquality.{eq_iff}
use moon_bridge.Prelude.{
  ap, if◌then◌else◌, ◌==◌, String, ◌≡◌, ◌≢◌, refl, sym, ◌∙◌, Bool, true, false, none, some, List,
  [], ◌∷◌, ◌++◌, string_comparable, inl, inr, arith, Option-cases,
}
use moon_bridge.Format.Blocks.{CoreContentBlock}
use moon_bridge.Format.Messages.{CoreTool, CoreRequest}
use moon_bridge.Plugins.{Plugin, Registry, new_registry, register, register_all}
use moon_bridge.Plugins.Dispatch.{walk}
use moon_bridge.Plugins.Hooks.{
  Hooks, default_hooks, mutate_by, filter_by, rewrite_by, inject_by, remember_by, add_hooks,
  hooks_from, core_plugin_hooks,
}

module _ (W Data : Type 0) where
  -- What the first plugins leave is what the next are given: each that can mutate a request and is
  -- enabled for the model that this request then has.
  unfoldable pub mutated : List (Plugin W Data) → CoreRequest → W → CoreRequest × W
  mutated [] req w = (req, w)
  mutated (p ∷ ps) req w = elim p.core_request_mutator [
    | none ↦ mutated ps req w
    | some f ↦ elim (p.enabled_for_model req.model) [
      | false ↦ mutated ps req w
      | true ↦ mutated ps (f req w).0 (f req w).1
    ]
  ]

  -- The filters are asked from the first plugin on, each with the block as it then is, until one
  -- says skip; those behind it are not asked.
  unfoldable pub filtered :
      List (Plugin W Data) → String → CoreContentBlock → W → Bool × CoreContentBlock × W
  filtered [] model b w = (false, b, w)
  filtered (p ∷ ps) model b w = elim p.core_content_filter [
    | none ↦ filtered ps model b w
    | some f ↦ elim (p.enabled_for_model model) [
      | false ↦ filtered ps model b w
      | true ↦ elim (f b w).0 [ false ↦ filtered ps model (f b w).1 (f b w).2 | true ↦ f b w ]
    ]
  ]

  mutate_step :
      (p : Plugin W Data) (ps : List (Plugin W Data)) (req : CoreRequest) (w : W)
      → mutated ps (mutate_by W Data p (req, w)).0 (mutate_by W Data p (req, w)).1
        ≡ mutated (p ∷ ps) req w
  unfolding mutated mutate_by
  mutate_step p ps req w = ground arith

  hooks-mutated :
      (ps : List (Plugin W Data)) (h : Hooks W Data) (req : CoreRequest) (w : W)
      → (hooks_from W Data ps h).mutate_core_request req w
        ≡ mutated ps (h.mutate_core_request req w).0 (h.mutate_core_request req w).1
  unfolding hooks_from add_hooks
  hooks-mutated [] h req w = unfold mutated in refl
  hooks-mutated (p ∷ ps) h req w =
      hooks-mutated ps (add_hooks W Data p h) req w
      ∙ mutate_step p ps (h.mutate_core_request req w).0 (h.mutate_core_request req w).1

  resumed :
      List (Plugin W Data) → String → Bool × CoreContentBlock × W → Bool × CoreContentBlock × W
  resumed ps model (skip, b, w) = elim skip [ true ↦ (true, b, w) | false ↦ filtered ps model b w ]

  filter_step :
      (p : Plugin W Data) (ps : List (Plugin W Data)) (model : String)
      (r : Bool × CoreContentBlock × W)
      → model ≢ ""
      → resumed ps model (filter_by W Data p model r) ≡ resumed (p ∷ ps) model r
  unfolding resumed filtered filter_by
  filter_step p ps model (skip, b, w) named = ground (arith, eq_iff model "")

  hooks-filtered :
      (ps : List (Plugin W Data)) (h : Hooks W Data) (model : String) (b : CoreContentBlock) (w : W)
      → model ≢ ""
      → (hooks_from W Data ps h).filter_content model b w
        ≡ resumed ps model (h.filter_content model b w)
  unfolding hooks_from add_hooks resumed filtered
  hooks-filtered [] h model b w named = ground arith
  hooks-filtered (p ∷ ps) h model b w named =
      hooks-filtered ps (add_hooks W Data p h) model b w named
      ∙ filter_step p ps model (h.filter_content model b w) named

  -- The messages of a request as a walk over the plugins rewrites them.
  abbrev pub rewritten : List (Plugin W Data) → CoreRequest → W → CoreRequest × W
  rewritten ps req w =
      let (messages, w') = walk W Data (λ p. p.message_rewriter) req.model ps req.messages w in
      (record req { messages = messages }, w')

  rewrite_step :
      (p : Plugin W Data) (ps : List (Plugin W Data)) (req : CoreRequest) (w : W)
      → rewritten ps (rewrite_by W Data p (req, w)).0 (rewrite_by W Data p (req, w)).1
        ≡ rewritten (p ∷ ps) req w
  unfolding walk rewrite_by
  rewrite_step p ps req w = ground arith

  hooks-rewritten :
      (ps : List (Plugin W Data)) (h : Hooks W Data) (req : CoreRequest) (w : W)
      → (hooks_from W Data ps h).rewrite_messages req w
        ≡ rewritten ps (h.rewrite_messages req w).0 (h.rewrite_messages req w).1
  unfolding hooks_from add_hooks
  hooks-rewritten [] h req w = unfold walk in refl
  hooks-rewritten (p ∷ ps) h req w =
      hooks-rewritten ps (add_hooks W Data p h) req w
      ∙ rewrite_step p ps (h.rewrite_messages req w).0 (h.rewrite_messages req w).1

  -- The tools of all plugins that can inject some and are enabled for the model.
  unfoldable pub injected : List (Plugin W Data) → String → W → List CoreTool × W
  injected [] model w = ([], w)
  injected (p ∷ ps) model w = elim p.tool_injector [
    | none ↦ injected ps model w
    | some f ↦ elim (p.enabled_for_model model) [
      | false ↦ injected ps model w
      | true ↦ let (rest, w') = injected ps model (f model w).1 in ((f model w).0 ++ rest, w')
    ]
  ]

  after_tools : List CoreTool → List CoreTool × W → List CoreTool × W
  after_tools tools (more, w) = (tools ++ more, w)

  inject_step :
      (p : Plugin W Data) (ps : List (Plugin W Data)) (model : String) (tools : List CoreTool)
      (w : W)
      → after_tools
          (inject_by W Data p model (tools, w)).0
          (injected ps model (inject_by W Data p model (tools, w)).1)
        ≡ after_tools tools (injected (p ∷ ps) model w)
  unfolding injected inject_by after_tools
  inject_step p ps model tools w = elim (Option-cases p.tool_injector) [
    | inl lacks ↦ ground arith
    | inr (f, has) ↦
        ground (arith, append_assoc tools (f model w).0 (injected ps model (f model w).1).0)
  ]

  hooks-injected :
      (ps : List (Plugin W Data)) (h : Hooks W Data) (model : String) (w : W)
      → (hooks_from W Data ps h).inject_tools model w
        ≡ after_tools (h.inject_tools model w).0 (injected ps model (h.inject_tools model w).1)
  unfolding hooks_from add_hooks after_tools injected
  hooks-injected [] h model w = ground (arith, append-nil (h.inject_tools model w).0)
  hooks-injected (p ∷ ps) h model w =
      hooks-injected ps (add_hooks W Data p h) model w
      ∙ inject_step p ps model (h.inject_tools model w).0 (h.inject_tools model w).1

  -- What all plugins that remember content and are enabled for the model make of the state.
  unfoldable pub remembered : List (Plugin W Data) → String → List CoreContentBlock → W → W
  remembered [] model bs w = w
  remembered (p ∷ ps) model bs w = elim p.core_content_rememberer [
    | none ↦ remembered ps model bs w
    | some f ↦ elim (p.enabled_for_model model) [
      | false ↦ remembered ps model bs w
      | true ↦ remembered ps model bs (f bs w)
    ]
  ]

  remember_step :
      (p : Plugin W Data) (ps : List (Plugin W Data)) (model : String) (bs : List CoreContentBlock)
      (w : W)
      → model ≢ ""
      → remembered ps model bs (remember_by W Data p model bs w) ≡ remembered (p ∷ ps) model bs w
  unfolding remembered remember_by
  remember_step p ps model bs w named = ground (arith, eq_iff model "")

  hooks-remembered :
      (ps : List (Plugin W Data)) (h : Hooks W Data) (model : String) (bs : List CoreContentBlock)
      (w : W)
      → model ≢ ""
      → (hooks_from W Data ps h).remember_content model bs w
        ≡ remembered ps model bs (h.remember_content model bs w)
  unfolding hooks_from add_hooks
  hooks-remembered [] h model bs w named = unfold remembered in refl
  hooks-remembered (p ∷ ps) h model bs w named =
      hooks-remembered ps (add_hooks W Data p h) model bs w named
      ∙ remember_step p ps model bs (h.remember_content model bs w) named

  -- Without a model no filter is asked, and nothing is remembered.
  hooks-filter_unnamed :
      (ps : List (Plugin W Data)) (h : Hooks W Data) (model : String) (b : CoreContentBlock) (w : W)
      → model ≡ ""
      → (h.filter_content model b w).0 ≡ false
      → (hooks_from W Data ps h).filter_content model b w ≡ h.filter_content model b w
  unfolding hooks_from add_hooks filter_by
  hooks-filter_unnamed [] h model b w unnamed none_skips = refl
  hooks-filter_unnamed (p ∷ ps) h model b w unnamed none_skips =
      let same : filter_by W Data p model (h.filter_content model b w)
          ≡ h.filter_content model b w =
        ground (arith, eq_iff model "") in
      hooks-filter_unnamed ps (add_hooks W Data p h) model b w unnamed
        (ap (λ r. r.0) same ∙ none_skips)
      ∙ same

  hooks-remember_unnamed :
      (ps : List (Plugin W Data)) (h : Hooks W Data) (model : String) (bs : List CoreContentBlock)
      (w : W)
      → model ≡ ""
      → (hooks_from W Data ps h).remember_content model bs w ≡ h.remember_content model bs w
  unfolding hooks_from add_hooks remember_by
  hooks-remember_unnamed [] h model bs w unnamed = refl
  hooks-remember_unnamed (p ∷ ps) h model bs w unnamed =
      hooks-remember_unnamed ps (add_hooks W Data p h) model bs w unnamed
      ∙ ground (arith, eq_iff model "")

  default-filtered :
      (ps : List (Plugin W Data)) (model : String) (b : CoreContentBlock) (w : W)
      → (hooks_from W Data ps (default_hooks W Data)).filter_content model b w
        ≡ (if model == "" then (false, b, w) else filtered ps model b w)
  unfolding resumed
  default-filtered ps model b w = ground (
    arith,
    eq_iff model "",
    hooks-filter_unnamed ps (default_hooks W Data) model b w,
    hooks-filtered ps (default_hooks W Data) model b w,
  )

  default-remembered :
      (ps : List (Plugin W Data)) (model : String) (bs : List CoreContentBlock) (w : W)
      → (hooks_from W Data ps (default_hooks W Data)).remember_content model bs w
        ≡ (if model == "" then w else remembered ps model bs w)
  default-remembered ps model bs w = ground (
    arith,
    eq_iff model "",
    hooks-remember_unnamed ps (default_hooks W Data) model bs w,
    hooks-remembered ps (default_hooks W Data) model bs w,
  )

  plugins-register_all :
      (ps : List (Plugin W Data)) (r : Registry W Data)
      → (register_all W Data ps r).plugins ≡ r.plugins ++ ps
  unfolding register_all register
  plugins-register_all [] r = sym (append-nil r.plugins)
  plugins-register_all (p ∷ ps) r =
      plugins-register_all ps (register W Data p r) ∙ append_assoc r.plugins (p ∷ []) ps

  -- The nested closures of `CorePluginHooks` do what walks over the registered plugins do, in the
  -- order of their registration, each of which asks only the plugins that have the capability and
  -- are enabled: a request is mutated by the plugins enabled for the model that it has when their
  -- turn comes; its messages are rewritten as the walk of `dispatch-register_all` does for its
  -- model; a block goes from filter to filter with the changes that each makes, until one says
  -- skip, and those behind it are not asked; the tools injected are joined; and content is
  -- remembered by one after the other. Without a model no block is filtered and nothing is
  -- remembered.
  pub core_plugin_hooks-register_all :
      (ps : List (Plugin W Data)) (req : CoreRequest) (model : String) (b : CoreContentBlock)
      (bs : List CoreContentBlock) (w : W)
      → ((core_plugin_hooks W Data
              (register_all W Data ps (new_registry W Data))).mutate_core_request
            req w
          ≡ mutated ps req w)
        × ((core_plugin_hooks W Data
                (register_all W Data ps (new_registry W Data))).rewrite_messages
              req w
            ≡ rewritten ps req w)
        × ((core_plugin_hooks W Data (register_all W Data ps (new_registry W Data))).filter_content
              model b w
            ≡ (if model == "" then (false, b, w) else filtered ps model b w))
        × ((core_plugin_hooks W Data (register_all W Data ps (new_registry W Data))).inject_tools
              model w
            ≡ injected ps model w)
        × ((core_plugin_hooks W Data
                (register_all W Data ps (new_registry W Data))).remember_content
              model bs w
            ≡ (if model == "" then w else remembered ps model bs w))
  unfolding core_plugin_hooks
  core_plugin_hooks-register_all ps req model b bs w =
      rw (plugins-register_all ps (new_registry W Data)) (
        hooks-mutated ps (default_hooks W Data) req w,
        hooks-rewritten ps (default_hooks W Data) req w,
        default-filtered ps model b w,
        unfold after_tools in hooks-injected ps (default_hooks W Data) model w,
        default-remembered ps model bs w,
      )
