-- ===== src/Plugins/Hooks.antt =====
-- `CorePluginHooks` of internal/extension/plugin/registry.go: each hook is a closure around the one
-- before. A request is never nil here, and the model of a context is an argument, empty where it has none.
pub mod Laws
use moon_bridge.Prelude.{
  String, ◌≡◌, refl, sym, ◌∙◌, Bool, true, false, not, ◌||◌, none, some, List, [], ◌∷◌, ◌++◌,
  if◌then◌else◌, ◌==◌, string_comparable,
}
use moon_bridge.Format.Blocks.{CoreContentBlock}
use moon_bridge.Format.Messages.{CoreMessage, CoreTool, CoreRequest}
use moon_bridge.Plugins.{Plugin, Registry, new_registry, register, register_all}

module _ (W Data : Type 0) where
  -- The hooks that plugins fill.
  pub record Hooks : Type 0 where
    pub mutate_core_request : CoreRequest → W → CoreRequest × W
    -- Whether to skip, and the block as the filters leave it, which are given it by its address.
    pub filter_content : String → CoreContentBlock → W → Bool × CoreContentBlock × W
    pub rewrite_messages : CoreRequest → W → CoreRequest × W
    pub inject_tools : String → W → List CoreTool × W
    pub remember_content : String → List CoreContentBlock → W → W

  -- The part of `WithDefaults` for them.
  abbrev pub default_hooks : Hooks
  default_hooks = record {
    mutate_core_request = λ req w. (req, w);
    filter_content = λ model b w. (false, b, w);
    rewrite_messages = λ req w. (req, w);
    inject_tools = λ model w. ([], w);
    remember_content = λ model bs w. w;
  }

  -- What one plugin does in each hook.
  unfoldable pub mutate_by : Plugin W Data → CoreRequest × W → CoreRequest × W
  mutate_by p (req, w) = elim p.core_request_mutator [
    | none ↦ (req, w)
    | some f ↦ if p.enabled_for_model req.model then f req w else (req, w)
  ]

  unfoldable pub filter_by :
      Plugin W Data → String → Bool × CoreContentBlock × W → Bool × CoreContentBlock × W
  filter_by p model (skip, b, w) = elim p.core_content_filter [
    | none ↦ (skip, b, w)
    | some f ↦
        if skip
        then (true, b, w)
        else if model == "" || not (p.enabled_for_model model)
        then (false, b, w)
        else f b w
  ]

  abbrev with_messages : CoreRequest → List CoreMessage × W → CoreRequest × W
  with_messages req (messages, w) = (record req { messages = messages }, w)

  unfoldable pub rewrite_by : Plugin W Data → CoreRequest × W → CoreRequest × W
  rewrite_by p (req, w) = elim p.message_rewriter [
    | none ↦ (req, w)
    | some f ↦
        if p.enabled_for_model req.model
        then with_messages req (f req.model req.messages w)
        else (req, w)
  ]

  abbrev more_tools : List CoreTool → List CoreTool × W → List CoreTool × W
  more_tools tools (more, w) = (tools ++ more, w)

  unfoldable pub inject_by : Plugin W Data → String → List CoreTool × W → List CoreTool × W
  inject_by p model (tools, w) = elim p.tool_injector [
    | none ↦ (tools, w)
    | some f ↦ if p.enabled_for_model model then more_tools tools (f model w) else (tools, w)
  ]

  unfoldable pub remember_by : Plugin W Data → String → List CoreContentBlock → W → W
  remember_by p model bs w = elim p.core_content_rememberer [
    | none ↦ w
    | some f ↦ if model == "" || not (p.enabled_for_model model) then w else f bs w
  ]

  -- A round of the loop: the closures around those before.
  unfoldable pub add_hooks : Plugin W Data → Hooks → Hooks
  add_hooks p prev = record {
    mutate_core_request = λ req w. mutate_by p (prev.mutate_core_request req w);
    filter_content = λ model b w. filter_by p model (prev.filter_content model b w);
    rewrite_messages = λ req w. rewrite_by p (prev.rewrite_messages req w);
    inject_tools = λ model w. inject_by p model (prev.inject_tools model w);
    remember_content = λ model bs w. remember_by p model bs (prev.remember_content model bs w);
  }

  unfoldable pub hooks_from : List (Plugin W Data) → Hooks → Hooks
  hooks_from [] hooks = hooks
  hooks_from (p ∷ ps) hooks = hooks_from ps (add_hooks p hooks)

  -- `CorePluginHooks`
  unfoldable pub core_plugin_hooks : Registry W Data → Hooks
  core_plugin_hooks r = hooks_from r.plugins default_hooks
