-- ===== src/Anthropic/Request.antt =====
-- internal/protocol/anthropic/adapter.go: the conversion of requests, `FromCoreRequest` and what it uses.
-- The hooks of the plugins are parameters.
pub mod Merging
pub mod Built
use Prim.Native.String.{◌++◌ as append}
use moon_bridge.Prelude.{
  ℕ, zero, suc, String, Bool, true, false, not, ◌&&◌, ◌||◌, Option, none, some, List, [], ◌∷◌, ◌++◌,
  map, ltb, if◌then◌else◌, ◌==◌, nat_comparable, string_comparable, is_empty,
}
use moon_bridge.Prelude.Int.{ℤ, pos, negsuc}
use moon_bridge.Cache.Select.{itoa}
use moon_bridge.Format.Json.{Members, text, member, end}
use moon_bridge.Format.Messages.{
  CoreMessage, CoreTool, CoreToolChoice, CoreThinkingConfig, CoreOutputConfig, CoreCacheControl,
  CoreRequest,
}
use moon_bridge.Format.Strip.{strip_content_blocks}
use moon_bridge.Anthropic.Types.{
  CacheControl, ContentBlock, fields, Message, Tool, ToolChoice, ThinkingConfig, OutputConfig,
  MessageRequest,
}
use moon_bridge.Anthropic.Blocks.{to_content_block}
use moon_bridge.Anthropic.Schema.{clean_schema}
use moon_bridge.Anthropic.Caching.{Encoding, CacheManager, plan_and_inject}

-- The hooks that a request goes through.
pub record RequestHooks : Type 0 where
  pub rewrite_messages : CoreRequest → CoreRequest
  pub mutate_core_request : CoreRequest → CoreRequest

-- `AnthropicProviderAdapter`, but for its stream buffer.
pub record Adapter : Type 0 where
  pub cfg_max_tokens : ℤ
  pub cache_mgr : Option CacheManager

abbrev is_positive : ℤ → Bool
is_positive (pos n) = ltb 0 n
is_positive (negsuc n) = false

-- `defaultMaxTokens`
unfoldable pub default_max_tokens : ℤ → ℤ → ℤ
default_max_tokens cfg_max_tokens requested =
    if is_positive requested
    then requested
    else if is_positive cfg_max_tokens
    then cfg_max_tokens
    else pos 1024

-- `mapRole`
unfoldable pub map_role : String → String
map_role role = if role == "tool" then "user" else role

abbrev pub is_result : ContentBlock → Bool
is_result b = (fields b).kind == "tool_result"

abbrev pub all_results : List ContentBlock → Bool
all_results [] = true
all_results (b ∷ bs) = is_result b && all_results bs

-- `isToolResultOnly`
unfoldable pub is_tool_result_only : List ContentBlock → Bool
is_tool_result_only bs = not (is_empty bs) && all_results bs

-- A user message of tool results alone.
abbrev pub carries_results : Message → Bool
carries_results m = m.role == "user" && is_tool_result_only m.content

-- A round of the loop over the messages: the message joins the last one, or follows it.
unfoldable pub add_message : Message → List Message → List Message
add_message m [] = m ∷ []
add_message m (x ∷ []) =
    if carries_results m && carries_results x
    then record x { content = x.content ++ m.content } ∷ []
    else x ∷ m ∷ []
add_message m (x ∷ y ∷ ms) = x ∷ add_message m (y ∷ ms)

abbrev pub to_message : CoreMessage → Message
to_message m = record { role = map_role m.role; content = map to_content_block m.content }

-- The loop, for messages that were added so far.
unfoldable pub add_messages : List CoreMessage → List Message → List Message
add_messages [] added = added
add_messages (m ∷ ms) added = add_messages ms (add_message (to_message m) added)

-- `map[string]any{"type": "object"}`
abbrev pub object_schema : Members
object_schema = member "type" (text "object") end

abbrev pub or_object : Option Members → Members
or_object none = object_schema
or_object (some ms) = ms

abbrev pub to_tool : CoreTool → Tool
to_tool t = record {
  name = t.name;
  kind = "";
  description = t.description;
  input_schema = some (or_object (clean_schema t.input_schema));
  max_uses = pos 0;
  cache_control = none;
}

-- `toAnthropicToolChoice`
unfoldable pub to_anthropic_tool_choice : CoreToolChoice → ToolChoice
to_anthropic_tool_choice tc =
    if tc.mode == "none"
    then record { kind = "none"; name = "" }
    else if tc.mode == "auto"
    then record { kind = "auto"; name = "" }
    else if tc.name == ""
    then record {
      kind = if tc.mode == "any" || tc.mode == "required" then "any" else "auto";
      name = "";
    }
    else record { kind = "tool"; name = tc.name }

-- `coreThinkingConfig`
unfoldable pub core_thinking_config : Option CoreThinkingConfig → Option ThinkingConfig
core_thinking_config none = none
core_thinking_config (some c) = some (record { kind = c.kind; budget_tokens = c.budget_tokens })

-- `coreOutputConfig`
unfoldable pub core_output_config : Option CoreOutputConfig → Option OutputConfig
core_output_config none = none
core_output_config (some c) = some (record { effort = c.effort })

-- `fmt.Sprintf("%ds", seconds)` where that is positive.
abbrev pub ttl_text : ℤ → String
ttl_text (pos zero) = ""
ttl_text (pos (suc n)) = append (itoa (suc n)) "s"
ttl_text (negsuc n) = ""

-- `coreCacheControl`
unfoldable pub core_cache_control : Option CoreCacheControl → Option CacheControl
core_cache_control none = none
core_cache_control (some c) =
    if c.enabled then some (record { kind = "ephemeral"; ttl = ttl_text c.ttl_seconds }) else none

abbrev pub choice_of : Option CoreToolChoice → ToolChoice
choice_of none = record { kind = "auto"; name = "" }
choice_of (some tc) = to_anthropic_tool_choice tc

-- Step 1 of `FromCoreRequest`: the hooks, and the texts without images.
unfoldable pub prepare : RequestHooks → CoreRequest → CoreRequest
prepare hooks req =
    let mutated = hooks.mutate_core_request (hooks.rewrite_messages req) in
    record mutated {
      system = strip_content_blocks mutated.system;
      messages =
          map (λ (m : CoreMessage). record m { content = strip_content_blocks m.content })
            mutated.messages;
    }

-- Step 2: the request before its cache is planned.
unfoldable pub build_request : ℤ → CoreRequest → MessageRequest
build_request cfg_max_tokens req = record {
  model = req.model;
  max_tokens = default_max_tokens cfg_max_tokens req.max_tokens;
  system = map to_content_block req.system;
  messages = add_messages req.messages [];
  tools = map to_tool req.tools;
  tool_choice = some (choice_of req.tool_choice);
  temperature = req.temperature;
  top_p = req.top_p;
  top_k = req.top_k;
  stop_sequences = req.stop_sequences;
  metadata = req.metadata;
  stream = req.stream;
  cache_control = core_cache_control req.cache_control;
  thinking = core_thinking_config req.thinking;
  output_config = core_output_config req.output;
}

pub data Converted : Type 0 where
  nil_request : Converted
  nil_cache_manager : Converted
  converted : MessageRequest → Converted

module _ (enc : Encoding) (hooks : RequestHooks) where
  -- `FromCoreRequest`
  unfoldable pub from_core_request : Adapter → ℕ → Option CoreRequest → Converted
  from_core_request a now none = nil_request
  from_core_request a now (some req) = elim a.cache_mgr [
    | none ↦ nil_cache_manager
    | some m ↦
        let ready = prepare hooks req in
        converted
          (plan_and_inject enc m now ready.extensions (build_request a.cfg_max_tokens ready)).1.1
  ]
