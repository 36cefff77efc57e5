-- ===== src/Anthropic/Tests.antt =====
-- The Anthropic protocol at concrete inputs.
use moon_bridge.Prelude.{
  ◌+◌, ◌≤◌, String, ◌≡◌, refl, inl, inr, true, false, none, some, List, [], ◌∷◌, map, length, All,
}
use moon_bridge.Prelude.Int.{pos}
use moon_bridge.Cache.Planner.{PlanCacheConfig, max_of}
use moon_bridge.Format.Json.{Members, end, member, null, text}
use moon_bridge.Format.Blocks
use moon_bridge.Format.Blocks.{
  CoreContentBlock, text_block, tool_use_fields, tool_result_fields, nil,
}
use moon_bridge.Format.Messages.{CoreMessage, CoreRequest}
use moon_bridge.Format.Strip.{strip_prefix}
use moon_bridge.Anthropic.Types.{Usage, MessageResponse}
use moon_bridge.Anthropic.Blocks.{to_content_block, from_content_block}
use moon_bridge.Anthropic.Blocks.RoundTrip.{IsCanonical, map-round_trip}
use moon_bridge.Anthropic.Schema.{clean_schema}
use moon_bridge.Anthropic.Schema.Clean.{IsCleanSchema, clean_schema-clean_schema}
use moon_bridge.Anthropic.Caching.{Encoding, CacheManager, plan_and_inject}
use moon_bridge.Anthropic.Caching.Bare.{bare}
use moon_bridge.Anthropic.Caching.Marks.{marks, plan_and_inject_only_marks}
use moon_bridge.Anthropic.Request.{RequestHooks, to_message, add_messages, build_request}
use moon_bridge.Anthropic.Request.Merging.{AreMerged, tagged, add_messages-AreMerged}
use moon_bridge.Anthropic.Stream.{next_event, ends, to_core_stream}
use moon_bridge.Anthropic.Stream.Numbers.{
  numbers, count_from, events_of, first_of, to_core_stream-numbers,
}
use moon_bridge.Anthropic.Stream.Parts.{
  Part, text_part, tool_part, thinking_part, IsSpoken, message_events, core_message, unnumbered,
  sse,
}
use moon_bridge.Anthropic.Stream.Whole.{to_core_stream-message_events}

abbrev called : CoreContentBlock
called = Blocks.block (tool_use_fields "call" "read" "{}") nil

abbrev answered : CoreContentBlock
answered = Blocks.block (tool_result_fields "call") (Blocks.cons (text_block "done") nil)

abbrev blocks : List CoreContentBlock
blocks = text_block "hello" ∷ called ∷ answered ∷ []

canonical : All IsCanonical blocks
unfolding IsCanonical
canonical = (
  inl (inl refl, refl),
  (inl (inr (inr (inl refl)), refl), (inr (refl, (inl (inl refl, refl), tt)), tt)),
)

map-round_trip_example : map from_content_block (map to_content_block blocks) ≡ blocks
map-round_trip_example = map-round_trip blocks canonical

abbrev schema : Members
schema = member "type" (text "object") (member "default" null end)

clean_schema-clean_schema_example :
    IsCleanSchema (clean_schema (some schema))
    × (clean_schema (clean_schema (some schema)) ≡ clean_schema (some schema))
clean_schema-clean_schema_example = clean_schema-clean_schema (some schema)

abbrev result_message : String → CoreMessage
result_message role = record { role = role; content = answered ∷ []; extensions = end }

abbrev messages : List CoreMessage
messages = result_message "tool" ∷ result_message "user" ∷ result_message "assistant" ∷ []

add_messages-AreMerged_example :
    AreMerged (add_messages messages [])
    × (tagged (add_messages messages []) ≡ tagged (map to_message messages))
add_messages-AreMerged_example = add_messages-AreMerged messages

-- A stand-in for the encoding of requests.
abbrev encoding : Encoding
encoding = record {
  sha256_hex = λ t. t;
  tools_hash = λ ts. "tools";
  system_hash = λ bs. "system";
  messages_hash = λ ms. "messages";
  request_tokens = λ r. 5000;
  tools_tokens = λ ts. 2000;
  system_tokens = λ bs. 2000;
  parse_ttl = λ t. pos 300;
}

abbrev config : PlanCacheConfig
config = record {
  base = record {
    mode = "explicit";
    ttl = "5m";
    prompt_caching = true;
    automatic_prompt_cache = false;
    explicit_cache_breakpoints = true;
    max_breakpoints = pos 2;
    min_cache_tokens = pos 0;
    expected_reuse = pos 1;
    minimum_value_score = pos 0;
    min_breakpoint_tokens = pos 0;
  };
  allow_retention_downgrade = false;
}

abbrev manager : CacheManager
manager = record { cache_cfg = config; registry = [] }

abbrev hooks : RequestHooks
hooks = record { rewrite_messages = λ r. r; mutate_core_request = λ r. r }

abbrev request : CoreRequest
request = record {
  model = "claude";
  messages = messages;
  system = text_block "be brief" ∷ [];
  tools =
      record { name = "read"; description = ""; input_schema = some schema; extensions = end } ∷ [];
  tool_choice = none;
  temperature = none;
  top_p = none;
  max_tokens = pos 0;
  top_k = none;
  stop_sequences = [];
  stream = true;
  safety_settings = end;
  generation_config = end;
  thinking = none;
  output = none;
  cache_control = none;
  metadata = end;
  extensions = end;
}

plan_and_inject_only_marks_example :
    (bare (plan_and_inject encoding manager 100 end (build_request (pos 0) request)).1.1
      ≡ bare (build_request (pos 0) request))
    × (marks (plan_and_inject encoding manager 100 end (build_request (pos 0) request)).1.1
        ≤ marks (build_request (pos 0) request) + max_of config.base)
plan_and_inject_only_marks_example =
    plan_and_inject_only_marks encoding manager 100 end (build_request (pos 0) request)

to_core_stream-numbers_example :
    (numbers (to_core_stream (next_event (sse "ping") ∷ next_event (sse "error") ∷ ends ∷ [])).sent
      ≡ count_from 0 (
          length
            (to_core_stream (next_event (sse "ping") ∷ next_event (sse "error") ∷ ends ∷ [])).sent))
    × ((to_core_stream (next_event (sse "ping") ∷ next_event (sse "error") ∷ ends ∷ [])).buffer
        ≡ first_of 1024
            (events_of (next_event (sse "ping") ∷ next_event (sse "error") ∷ ends ∷ [])))
to_core_stream-numbers_example =
    to_core_stream-numbers (next_event (sse "ping") ∷ next_event (sse "error") ∷ ends ∷ [])

abbrev usage : Usage
usage = record {
  input_tokens = pos 10;
  output_tokens = pos 5;
  cache_creation_input_tokens = pos 0;
  cache_read_input_tokens = pos 3;
}

abbrev response : MessageResponse
response = record {
  id = "msg";
  kind = "message";
  role = "assistant";
  model = "claude";
  content = [];
  stop_reason = "";
  stop_sequence = "";
  usage = usage;
}

abbrev message_parts : List Part
message_parts =
    thinking_part "" "" ("because" ∷ []) ("signed" ∷ [])
    ∷ text_part ("Hel" ∷ "lo" ∷ [])
    ∷ tool_part "call" "read" ("{}" ∷ [])
    ∷ []

spoken : All IsSpoken message_parts
unfolding strip_prefix
spoken = (tt, ((refl, (refl, tt)), (tt, tt)))

to_core_stream-message_events_example :
    map unnumbered
      (to_core_stream
        (map next_event (message_events response message_parts usage "tool_use"))).sent
    ≡ core_message response message_parts usage "tool_use"
to_core_stream-message_events_example =
    to_core_stream-message_events response message_parts usage "tool_use" spoken
