-- ===== src/Plugins/Tests.antt =====
-- The plugin registry at concrete inputs.
use moon_bridge.Prelude.{
  refl, String, ◌≡◌, true, false, none, some, List, [], ◌∷◌, ◌++◌, ◌==◌, string_comparable,
}
use moon_bridge.Prelude.Int.{pos}
use moon_bridge.Format.Json.{end}
use moon_bridge.Format.Blocks.{text_block}
use moon_bridge.Format.Messages.{CoreMessage, CoreRequest}
use moon_bridge.Plugins.{
  Plugin, new_registry, register_all, preprocess_input, mutate_request, rewrite_messages,
  transform_error,
}
use moon_bridge.Plugins.Dispatch.{walk, dispatch-register_all}
use moon_bridge.Plugins.Hooks.{Hooks, core_plugin_hooks}
use moon_bridge.Plugins.Hooks.Laws.{
  mutated, rewritten, filtered, injected, remembered, core_plugin_hooks-register_all,
}

-- Plugins that keep a log.
abbrev Log : Type 0
Log = List String

abbrev plugin_named : String → Plugin Log String
plugin_named name = record {
  name = name;
  enabled_for_model = λ model. model == "deepseek";
  init = λ w. (none, w);
  shutdown = λ w. name ∷ w;
  input_preprocessor = some (λ model raw w. (name, raw ∷ w));
  request_mutator = none;
  tool_injector = none;
  message_rewriter = some (λ model messages w. (messages ++ messages, name ∷ w));
  content_filter = none;
  content_rememberer = none;
  error_transformer = some (λ model msg w. (name, msg ∷ w));
  session_provider = none;
  core_request_mutator = some (λ req w. (record req { model = name }, name ∷ w));
  core_content_filter = some (λ b w. (name == "second", text_block name, name ∷ w));
  core_content_rememberer = none;
}

abbrev two_plugins : List (Plugin Log String)
two_plugins = plugin_named "first" ∷ plugin_named "second" ∷ []

abbrev one_message : List CoreMessage
one_message = record { role = "user"; content = text_block "hello" ∷ []; extensions = end } ∷ []

abbrev core_request : CoreRequest
core_request = record {
  model = "deepseek";
  messages = one_message;
  system = [];
  tools = [];
  tool_choice = none;
  temperature = none;
  top_p = none;
  max_tokens = pos 0;
  top_k = none;
  stop_sequences = [];
  stream = false;
  safety_settings = end;
  generation_config = end;
  thinking = none;
  output = none;
  cache_control = none;
  metadata = end;
  extensions = end;
}

dispatch-register_all_example :
    (preprocess_input Log String
        (register_all Log String two_plugins (new_registry Log String))
        "deepseek"
        "raw"
        []
      ≡ walk Log String (λ p. p.input_preprocessor) "deepseek" two_plugins "raw" [])
    × (mutate_request Log String
          (register_all Log String two_plugins (new_registry Log String))
          "deepseek"
          core_request
          []
        ≡ walk Log String (λ p. p.request_mutator) "deepseek" two_plugins core_request [])
    × (rewrite_messages Log String
          (register_all Log String two_plugins (new_registry Log String))
          "deepseek"
          one_message
          []
        ≡ walk Log String (λ p. p.message_rewriter) "deepseek" two_plugins one_message [])
    × (transform_error Log String
          (register_all Log String two_plugins (new_registry Log String))
          "deepseek"
          "oops"
          []
        ≡ walk Log String (λ p. p.error_transformer) "deepseek" two_plugins "oops" [])
dispatch-register_all_example =
    dispatch-register_all Log String two_plugins "deepseek" "raw" "oops" core_request one_message []

abbrev hooks : Hooks Log String
hooks = core_plugin_hooks Log String (register_all Log String two_plugins (new_registry Log String))

core_plugin_hooks-register_all_example :
    (hooks.mutate_core_request core_request [] ≡ mutated Log String two_plugins core_request [])
    × (hooks.rewrite_messages core_request [] ≡ rewritten Log String two_plugins core_request [])
    × (hooks.filter_content "deepseek" (text_block "hello") []
        ≡ filtered Log String two_plugins "deepseek" (text_block "hello") [])
    × (hooks.inject_tools "deepseek" [] ≡ injected Log String two_plugins "deepseek" [])
    × (hooks.remember_content "deepseek" (text_block "hello" ∷ []) []
        ≡ remembered Log String two_plugins "deepseek" (text_block "hello" ∷ []) [])
core_plugin_hooks-register_all_example =
    core_plugin_hooks-register_all Log String two_plugins core_request "deepseek"
      (text_block "hello") (text_block "hello" ∷ []) []

-- The second filter is given the block as the first left it, and says skip.
filter_content_threads :
    hooks.filter_content "deepseek" (text_block "hello") []
    ≡ (true, text_block "second", "second" ∷ "first" ∷ [])
unfolding core_plugin_hooks moon_bridge.Plugins.Hooks.hooks_from moon_bridge.Plugins.Hooks.add_hooks
    moon_bridge.Plugins.Hooks.filter_by moon_bridge.Plugins.register_all
    moon_bridge.Plugins.register
filter_content_threads = refl
