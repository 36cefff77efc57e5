-- ===== src/Anthropic/Stream/Parts.antt =====
-- The streams of the Messages API, part by part, and the core events that each part becomes.
use moon_bridge.Prelude.{
  ℕ, suc, String, ◌≡◌, false, none, some, List, [], ◌∷◌, ◌++◌, map, nat_comparable,
  string_comparable, All,
}
use moon_bridge.Format.Blocks.{text_fields, tool_use_fields, reasoning_fields}
use moon_bridge.Format.Events.{
  CoreStreamEvent, event, created, in_progress, completed, block_started, block_done, text_delta,
  args_delta, item_added, item_done,
}
use moon_bridge.Anthropic.Types
use moon_bridge.Anthropic.Types.{
  ContentBlock, zero_fields, no_content, Usage, MessageResponse, StreamDelta, StreamEvent,
}
use moon_bridge.Anthropic.Stream.{at_block, with_block, is_search_status, stream_usage}

-- A part of a message: the texts of a text; the name and the JSON of a tool call; the thoughts of
-- thinking, behind what its start holds, and the signatures that come in deltas.
pub data Part : Type 0 where
  text_part : List String → Part
  tool_part : String → String → List String → Part
  thinking_part : String → String → List String → List String → Part

abbrev pub no_delta : StreamDelta
no_delta = record {
  kind = "";
  text = "";
  thinking = "";
  signature = "";
  partial_json = "";
  stop_reason = "";
}

-- The events of the Messages API.
abbrev pub sse : String → StreamEvent
sse kind = record {
  kind = kind;
  message = none;
  index = 0;
  content_block = none;
  delta = no_delta;
  usage = none;
  error = none;
}

abbrev pub start_event : ℕ → Types.BlockFields → StreamEvent
start_event i f = record (sse "content_block_start") {
  index = i;
  content_block = some (Types.block f no_content);
}

abbrev pub delta_event : ℕ → StreamDelta → StreamEvent
delta_event i d = record (sse "content_block_delta") { index = i; delta = d }

abbrev pub stop_event : ℕ → StreamEvent
stop_event i = record (sse "content_block_stop") { index = i }

abbrev pub text_event : ℕ → String → StreamEvent
text_event i t = delta_event i (record no_delta { kind = "text_delta"; text = t })

abbrev pub json_event : ℕ → String → StreamEvent
json_event i t = delta_event i (record no_delta { kind = "input_json_delta"; partial_json = t })

abbrev pub thought_event : ℕ → String → StreamEvent
thought_event i t = delta_event i (record no_delta { kind = "thinking_delta"; thinking = t })

abbrev pub signature_event : ℕ → String → StreamEvent
signature_event i t = delta_event i (record no_delta { kind = "signature_delta"; signature = t })

-- The events of the part at an index.
abbrev pub part_events : ℕ → Part → List StreamEvent
part_events i (text_part ts) =
    start_event i (record zero_fields { kind = "text" }) ∷ map (text_event i) ts
    ++ stop_event i ∷ []
part_events i (tool_part id name ts) =
    start_event i (record zero_fields { kind = "tool_use"; id = id; name = name })
      ∷ map (json_event i) ts
    ++ stop_event i ∷ []
part_events i (thinking_part text signature ts signatures) =
    start_event i (record zero_fields { kind = "thinking"; thinking = text; signature = signature })
      ∷ map (thought_event i) ts
    ++ (map (signature_event i) signatures ++ stop_event i ∷ [])

abbrev pub parts_events : ℕ → List Part → List StreamEvent
parts_events i [] = []
parts_events i (p ∷ ps) = part_events i p ++ parts_events (suc i) ps

-- The events of a message, its parts numbered from 0.
abbrev pub message_events : MessageResponse → List Part → Usage → String → List StreamEvent
message_events m ps u stop_reason =
    record (sse "message_start") { message = some m } ∷ parts_events 0 ps
    ++ record (sse "message_delta") {
      delta = record no_delta { stop_reason = stop_reason };
      usage = some u;
    }
      ∷ sse "message_stop"
      ∷ []

-- What becomes of them, but for the numbers.
abbrev pub core_text : ℕ → String → CoreStreamEvent
core_text i t = at_block i (record (event text_delta) { delta = t })

abbrev pub core_json : ℕ → String → CoreStreamEvent
core_json i t = at_block i (record (event args_delta) { delta = t })

abbrev pub core_thought : ℕ → String → CoreStreamEvent
core_thought i t =
    at_block i (with_block (reasoning_fields "" "") (record (event text_delta) { delta = t }))

-- A signature becomes an empty thought.
abbrev pub core_signature : ℕ → String → CoreStreamEvent
core_signature i t = core_thought i ""

abbrev pub core_part : ℕ → Part → List CoreStreamEvent
core_part i (text_part ts) =
    at_block i (with_block (text_fields "") (event block_started)) ∷ map (core_text i) ts
    ++ at_block i (event block_done) ∷ event item_done ∷ []
core_part i (tool_part id name ts) =
    at_block i (with_block (tool_use_fields id name "") (event block_started))
      ∷ record (event item_added) { item_id = id }
      ∷ map (core_json i) ts
    ++ at_block i (event block_done) ∷ event item_done ∷ []
core_part i (thinking_part text signature ts signatures) =
    at_block i (with_block (reasoning_fields text signature) (event block_started))
      ∷ map (core_thought i) ts
    ++ (map (core_signature i) signatures
        ++ at_block i (with_block (reasoning_fields "" "") (event block_done))
          ∷ event item_done
          ∷ [])

abbrev pub core_parts : ℕ → List Part → List CoreStreamEvent
core_parts i [] = []
core_parts i (p ∷ ps) = core_part i p ++ core_parts (suc i) ps

abbrev pub core_message : MessageResponse → List Part → Usage → String → List CoreStreamEvent
core_message m ps u stop_reason =
    record (event created) { status = "in_progress"; model = m.model }
      ∷ record (event item_added) { item_id = m.id }
      ∷ core_parts 0 ps
    ++ record (event in_progress) { usage = some (stream_usage u); stop_reason = stop_reason }
      ∷ record (event completed) {
        usage = some (stream_usage u);
        status = "completed";
        model = m.model;
      }
      ∷ []

-- An event without its number.
abbrev pub unnumbered : CoreStreamEvent → CoreStreamEvent
unnumbered e = record e { seq_num = 0 }

-- No text of the part looks like a status of the search.
abbrev pub IsSpoken : Part → Type 0
IsSpoken (text_part ts) = All (λ t. is_search_status t ≡ false) ts
IsSpoken (tool_part id name ts) = Unit
IsSpoken (thinking_part text signature ts signatures) = Unit
