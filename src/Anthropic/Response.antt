-- ===== src/Anthropic/Response.antt =====
-- internal/protocol/anthropic/adapter.go: `ToCoreResponse` and what it uses.
use moon_bridge.Prelude.{
  ℕ, String, ◌||◌, Option, none, some, List, [], ◌∷◌, map, if◌then◌else◌, ◌==◌, string_comparable,
}
use moon_bridge.Prelude.Int.{◌+ℤ◌}
use moon_bridge.Cache.Planner.{is_zero}
use moon_bridge.Format.Json.{end}
use moon_bridge.Format.Blocks.{CoreContentBlock}
use moon_bridge.Format.Messages.{CoreUsage, CoreError, CoreResponse}
use moon_bridge.Anthropic.Types.{Usage, MessageResponse}
use moon_bridge.Anthropic.Blocks.{from_content_block}
use moon_bridge.Anthropic.Caching.{Encoding, update_cache}
use moon_bridge.Anthropic.Request.{Adapter}

-- `toCoreUsage`
unfoldable pub to_core_usage : Usage → CoreUsage
to_core_usage u =
    let cached =
      if is_zero u.cache_read_input_tokens
      then u.cache_creation_input_tokens
      else u.cache_read_input_tokens in
    let total_input = u.input_tokens +ℤ cached in
    record {
      input_tokens = total_input;
      output_tokens = u.output_tokens;
      total_tokens = total_input +ℤ u.output_tokens;
      cached_input_tokens = cached;
    }

-- `mapStopReasonToStatus`
unfoldable pub map_stop_reason_to_status : String → String
map_stop_reason_to_status reason =
    if reason == "end_turn" || reason == "stop_sequence" || reason == "tool_use"
    then "completed"
    else if reason == "max_tokens"
    then "incomplete"
    else if reason == "content_filtered"
    then "failed"
    else if reason == ""
    then "in_progress"
    else "completed"

-- What the `any` of a response holds: a value, a pointer that may be nil, or something else.
pub data AnyResponse : Type 0 where
  a_value : MessageResponse → AnyResponse
  a_pointer : Option MessageResponse → AnyResponse
  another : AnyResponse

-- `normalizeAnthropicMessageResponse`; none is an error.
unfoldable pub normalize : AnyResponse → Option MessageResponse
normalize (a_value r) = some r
normalize (a_pointer r) = r
normalize another = none

abbrev filter_error : CoreError
filter_error = record {
  message = "response filtered by content moderation";
  kind = "content_filter";
  code = "";
}

-- The core response of `ToCoreResponse`.
unfoldable pub core_response : MessageResponse → CoreResponse
core_response r = record {
  id = r.id;
  status =
      if r.stop_reason == "content_filtered"
      then "failed"
      else map_stop_reason_to_status r.stop_reason;
  model = r.model;
  messages =
      record { role = "assistant"; content = map from_content_block r.content; extensions = end }
      ∷ [];
  usage = to_core_usage r.usage;
  error = if r.stop_reason == "content_filtered" then some filter_error else none;
  stop_reason = r.stop_reason;
  extensions = end;
}

module _ (enc : Encoding) where
  -- `ToCoreResponse`: the adapter afterwards, what the hook `RememberContent` is given, and the response;
  -- none is an error.
  unfoldable pub to_core_response :
      Adapter → ℕ → AnyResponse → Option (Adapter × (List CoreContentBlock × CoreResponse))
  to_core_response a now resp = elim (normalize resp) [
    | none ↦ none
    | some r ↦ some (
      record a {
        cache_mgr = elim a.cache_mgr [
          | none ↦ none
          | some m ↦ some (update_cache enc m "" "" r.usage now)
        ];
      },
      (map from_content_block r.content, core_response r),
    )
  ]
