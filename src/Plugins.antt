-- ===== src/Plugins.antt =====
-- internal/extension/plugin/registry.go: `Registry`, with its registration, its dispatch and the hooks
-- that it builds for the adapters. What a plugin does is a parameter, a function of the state `W` that
-- plugins keep; a capability that a plugin does not implement is none. A registry is never nil here.
pub mod Dispatch
pub mod Hooks
mod Tests
use moon_bridge.Prelude.{
  String, Bool, true, false, Option, none, some, List, [], ◌∷◌, ◌++◌, if◌then◌else◌,
  string_comparable,
}
use moon_bridge.Prelude.GoMap.{GoMap, put}
use moon_bridge.Format.Blocks.{CoreContentBlock}
use moon_bridge.Format.Messages.{CoreMessage, CoreTool, CoreRequest}

module _ (W Data : Type 0) where
  -- What takes a value, for a model, and gives another.
  abbrev pub Transform : Type 0 → Type 0
  Transform A = String → A → W → A × W

  -- A plugin with its capabilities; `Data` is what it keeps in a session.
  pub record Plugin : Type 0 where
    pub name : String
    pub enabled_for_model : String → Bool
    pub init : W → Option String × W
    pub shutdown : W → W
    pub input_preprocessor : Option (Transform String)
    pub request_mutator : Option (Transform CoreRequest)
    pub tool_injector : Option (String → W → List CoreTool × W)
    pub message_rewriter : Option (Transform (List CoreMessage))
    pub content_filter : Option (String → CoreContentBlock → W → Bool × W)
    pub content_rememberer : Option (String → List CoreContentBlock → W → W)
    pub error_transformer : Option (Transform String)
    pub session_provider : Option (W → Option Data × W)
    pub core_request_mutator : Option (CoreRequest → W → CoreRequest × W)
    -- Whether the block is to be skipped, and the block as the filter leaves it.
    pub core_content_filter : Option (CoreContentBlock → W → Bool × CoreContentBlock × W)
    pub core_content_rememberer : Option (List CoreContentBlock → W → W)

  -- A list of the plugins with a capability.
  abbrev pub With : Type 0 → Type 0
  With F = List (Plugin × F)

  -- `if v, ok := p.(Capability); ok`
  abbrev pub detected : {F : Type 0} → Plugin → Option F → With F → With F
  detected p none list = list
  detected p (some f) list = list ++ (p, f) ∷ []

  -- Capabilities, one after the other, of the plugins that are enabled.
  unfoldable pub chain : {A : Type 0} → String → With (Transform A) → A → W → A × W
  chain model [] a w = (a, w)
  chain model ((p, f) ∷ ps) a w =
      if p.enabled_for_model model
      then (let (a', w') = f model a w in chain model ps a' w')
      else chain model ps a w

  -- `InjectTools`
  unfoldable pub inject : String → With (String → W → List CoreTool × W) → W → List CoreTool × W
  inject model [] w = ([], w)
  inject model ((p, f) ∷ ps) w =
      if p.enabled_for_model model
      then (let (tools, w') = f model w in
          let (rest, w'') = inject model ps w' in (tools ++ rest, w''))
      else inject model ps w

  -- `FilterContent`, which stops at the first that says skip.
  unfoldable pub filter :
      String → With (String → CoreContentBlock → W → Bool × W) → CoreContentBlock → W → Bool × W
  filter model [] b w = (false, w)
  filter model ((p, f) ∷ ps) b w =
      if p.enabled_for_model model
      then (let (skip, w') = f model b w in if skip then (true, w') else filter model ps b w')
      else filter model ps b w

  unfoldable pub remember :
      String → With (String → List CoreContentBlock → W → W) → List CoreContentBlock → W → W
  remember model [] bs w = w
  remember model ((p, f) ∷ ps) bs w =
      remember model ps bs (if p.enabled_for_model model then f model bs w else w)

  -- `NewSessionData`
  unfoldable pub session_data :
      With (W → Option Data × W) → GoMap String Data → W → GoMap String Data × W
  session_data [] data_ w = (data_, w)
  session_data ((p, f) ∷ ps) data_ w =
      let (made, w') = f w in
      session_data ps (elim made [ none ↦ data_ | some d ↦ put p.name d data_ ]) w'

  -- The lists of the registry.
  pub record Registry : Type 0 where
    pub plugins : List Plugin
    pub input_preprocessors : With (Transform String)
    pub request_mutators : With (Transform CoreRequest)
    pub tool_injectors : With (String → W → List CoreTool × W)
    pub message_rewriters : With (Transform (List CoreMessage))
    pub content_filters : With (String → CoreContentBlock → W → Bool × W)
    pub content_rememberers : With (String → List CoreContentBlock → W → W)
    pub error_transformers : With (Transform String)
    pub session_providers : With (W → Option Data × W)

  -- `NewRegistry`
  abbrev pub new_registry : Registry
  new_registry = record {
    plugins = [];
    input_preprocessors = [];
    request_mutators = [];
    tool_injectors = [];
    message_rewriters = [];
    content_filters = [];
    content_rememberers = [];
    error_transformers = [];
    session_providers = [];
  }

  -- `Register`
  unfoldable pub register : Plugin → Registry → Registry
  register p r = record {
    plugins = r.plugins ++ p ∷ [];
    input_preprocessors = detected p p.input_preprocessor r.input_preprocessors;
    request_mutators = detected p p.request_mutator r.request_mutators;
    tool_injectors = detected p p.tool_injector r.tool_injectors;
    message_rewriters = detected p p.message_rewriter r.message_rewriters;
    content_filters = detected p p.content_filter r.content_filters;
    content_rememberers = detected p p.content_rememberer r.content_rememberers;
    error_transformers = detected p p.error_transformer r.error_transformers;
    session_providers = detected p p.session_provider r.session_providers;
  }

  -- Registrations, one after the other.
  unfoldable pub register_all : List Plugin → Registry → Registry
  register_all [] r = r
  register_all (p ∷ ps) r = register_all ps (register p r)

  -- The loop of `InitAll`, which ends with the first error.
  unfoldable pub init_from : List Plugin → W → Option String × W
  init_from [] w = (none, w)
  init_from (p ∷ ps) w =
      let (failed, w') = p.init w in elim failed [ none ↦ init_from ps w' | some e ↦ (some e, w') ]

  abbrev pub init_all : Registry → W → Option String × W
  init_all r w = init_from r.plugins w

  -- The loop of `ShutdownAll`, from the last plugin to the first.
  unfoldable pub shutdown_from : List Plugin → W → W
  shutdown_from [] w = w
  shutdown_from (p ∷ ps) w = p.shutdown (shutdown_from ps w)

  -- `ShutdownAll`; errors are logged.
  abbrev pub shutdown_all : Registry → W → W
  shutdown_all r w = shutdown_from r.plugins w

  -- `PreprocessInput`
  abbrev pub preprocess_input : Registry → String → String → W → String × W
  preprocess_input r model raw w = chain model r.input_preprocessors raw w

  -- `MutateRequest`
  abbrev pub mutate_request : Registry → String → CoreRequest → W → CoreRequest × W
  mutate_request r model req w = chain model r.request_mutators req w

  -- `InjectTools`
  abbrev pub inject_tools : Registry → String → W → List CoreTool × W
  inject_tools r model w = inject model r.tool_injectors w

  -- `RewriteMessages`
  abbrev pub rewrite_messages : Registry → String → List CoreMessage → W → List CoreMessage × W
  rewrite_messages r model messages w = chain model r.message_rewriters messages w

  -- `FilterContent`
  abbrev pub filter_content : Registry → String → CoreContentBlock → W → Bool × W
  filter_content r model b w = filter model r.content_filters b w

  -- `RememberContent`
  abbrev pub remember_content : Registry → String → List CoreContentBlock → W → W
  remember_content r model bs w = remember model r.content_rememberers bs w

  -- `TransformError`
  abbrev pub transform_error : Registry → String → String → W → String × W
  transform_error r model msg w = chain model r.error_transformers msg w

  -- `NewSessionData`
  abbrev pub new_session_data : Registry → W → GoMap String Data × W
  new_session_data r w = session_data r.session_providers [] w
