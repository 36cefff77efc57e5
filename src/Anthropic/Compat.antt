-- ===== src/Anthropic/Compat.antt =====
-- internal/protocol/anthropic/adapter.go: the bridge from requests of the Messages API to the core,
-- `FromAnthropicRequest` and what it uses. `fmt.Sscanf` is a parameter.
use moon_bridge.Prelude.{
  ℕ, String, Bool, true, ◌||◌, Option, none, some, map, if◌then◌else◌, ◌==◌, nat_comparable,
  string_comparable,
}
use moon_bridge.Prelude.Int.{ℤ, pos, ◌*ℤ◌}
use moon_bridge.Format.Json.{end}
use moon_bridge.Format.Messages.{
  CoreMessage, CoreTool, CoreToolChoice, CoreThinkingConfig, CoreOutputConfig, CoreCacheControl,
  CoreRequest,
}
use moon_bridge.Anthropic.Types.{
  CacheControl, Message, Tool, ToolChoice, ThinkingConfig, OutputConfig, MessageRequest,
}
use moon_bridge.Anthropic.Blocks.{from_content_block}
use moon_bridge.Anthropic.Caching.{Encoding}
use moon_bridge.Anthropic.Request.{RequestHooks, Adapter, Converted, map_role, from_core_request}

-- What `fmt.Sscanf(ttl, "%d%s", &value, &unit)` gives.
pub record Scan : Type 0 where
  pub count : ℕ
  pub failed : Bool
  pub value : ℤ
  pub unit_ : String

-- `toCoreThinkingConfig`
unfoldable pub to_core_thinking_config : Option ThinkingConfig → Option CoreThinkingConfig
to_core_thinking_config none = none
to_core_thinking_config (some c) = some (record { kind = c.kind; budget_tokens = c.budget_tokens })

-- `toCoreOutputConfig`
unfoldable pub to_core_output_config : Option OutputConfig → Option CoreOutputConfig
to_core_output_config none = none
to_core_output_config (some c) = some (record { effort = c.effort })

abbrev pub from_message : Message → CoreMessage
from_message m = record {
  role = map_role m.role;
  content = map from_content_block m.content;
  extensions = end;
}

abbrev pub from_tool : Tool → CoreTool
from_tool t = record {
  name = t.name;
  description = t.description;
  input_schema = t.input_schema;
  extensions = end;
}

abbrev pub from_choice : Option ToolChoice → Option CoreToolChoice
from_choice none = none
from_choice (some c) = some (record { mode = c.kind; name = c.name; raw = ""; extensions = end })

module _ (scan : String → Scan) where
  -- `parseTTLSeconds`
  unfoldable pub parse_ttl_seconds : String → ℤ
  parse_ttl_seconds ttl =
      let s = scan ttl in
      if ttl == "" || s.failed || s.count == 0
      then pos 0
      else if s.unit_ == "s"
      then s.value
      else if s.unit_ == "m"
      then s.value *ℤ pos 60
      else if s.unit_ == "h"
      then s.value *ℤ pos 3600
      else if s.count == 1
      then s.value
      else pos 0

  -- `toCoreCacheControl`
  unfoldable pub to_core_cache_control : Option CacheControl → Option CoreCacheControl
  to_core_cache_control none = none
  to_core_cache_control (some c) =
      some (record { enabled = true; ttl_seconds = parse_ttl_seconds c.ttl; strategy = "auto" })

  -- `anthropicToCoreRequest`
  unfoldable pub anthropic_to_core_request : MessageRequest → CoreRequest
  anthropic_to_core_request req = record {
    model = req.model;
    messages = map from_message req.messages;
    system = map from_content_block req.system;
    tools = map from_tool req.tools;
    tool_choice = from_choice req.tool_choice;
    temperature = req.temperature;
    top_p = req.top_p;
    max_tokens = req.max_tokens;
    top_k = req.top_k;
    stop_sequences = req.stop_sequences;
    stream = req.stream;
    safety_settings = end;
    generation_config = end;
    thinking = to_core_thinking_config req.thinking;
    output = to_core_output_config req.output_config;
    cache_control = to_core_cache_control req.cache_control;
    metadata = req.metadata;
    extensions = end;
  }

module _ (enc : Encoding) (hooks : RequestHooks) (scan : String → Scan) where
  -- `FromAnthropicRequest`; a request that is nil stays nil.
  unfoldable pub from_anthropic_request : Adapter → ℕ → Option MessageRequest → Converted
  from_anthropic_request a now none = from_core_request enc hooks a now none
  from_anthropic_request a now (some req) =
      from_core_request enc hooks a now (some (anthropic_to_core_request scan req))
