-- ===== src/Anthropic/Stream.antt =====
-- internal/protocol/anthropic/adapter.go: the conversion of streams, `ToCoreStream`. The goroutine reads
-- one event at a time and sends what it makes of it, so a run is the list of what `Next` returns. An
-- index is never negative, and the counter of events does not overflow 64 bits.
pub mod Numbers
pub mod Parts
pub mod Becomes
pub mod Whole
use moon_bridge.Prelude.{
  ℕ, suc, String, Bool, true, false, ◌||◌, Option, none, some, List, [], ◌∷◌, ◌++◌, leb,
  if◌then◌else◌, ◌==◌, nat_comparable, string_comparable, length,
}
use moon_bridge.Prelude.Int.{pos, ◌+ℤ◌}
use moon_bridge.Prelude.GoMap.{GoMap, get, put, delete}
use moon_bridge.Format.Blocks
use moon_bridge.Format.Blocks.{text_fields, tool_use_fields, reasoning_fields, nil}
use moon_bridge.Format.Messages.{CoreUsage, CoreError}
use moon_bridge.Format.Events.{
  CoreStreamEvent, event, created, in_progress, completed, failed, block_started, block_done,
  text_delta, args_delta, item_added, item_done, ping,
}
use moon_bridge.Format.Strip.{strip_prefix}
use moon_bridge.Anthropic.Types.{
  ContentBlock, fields, Usage, MessageResponse, StreamDelta, ErrorObject, StreamEvent,
}

-- `streamConverterState`
pub record ConverterState : Type 0 where
  pub seq_num : ℕ
  pub msg_id : String
  pub model : String
  pub block_types : GoMap ℕ String
  pub block_signatures : GoMap ℕ String
  pub final_usage : Option CoreUsage
  pub suppress_text : GoMap ℕ Bool

abbrev pub new_converter_state : ConverterState
new_converter_state = record {
  seq_num = 0;
  msg_id = "";
  model = "";
  block_types = [];
  block_signatures = [];
  final_usage = none;
  suppress_text = [];
}

-- A new state, and the events to emit.
abbrev pub Reaction : Type 0
Reaction = ConverterState × List CoreStreamEvent

abbrev pub at : GoMap ℕ String → ℕ → String
at m index = elim (get index m) [ none ↦ "" | some text ↦ text ]

abbrev pub flag_at : GoMap ℕ Bool → ℕ → Bool
flag_at m index = elim (get index m) [ none ↦ false | some b ↦ b ]

-- An event about the block at an index.
abbrev pub at_block : ℕ → CoreStreamEvent → CoreStreamEvent
at_block index e = record e { index = index }

abbrev pub with_block : Blocks.CoreFields → CoreStreamEvent → CoreStreamEvent
with_block f e = record e { content_block = some (Blocks.block f nil) }

-- `message_start`
unfoldable pub start_message : MessageResponse → ConverterState → Reaction
start_message m s = (
  record s { msg_id = m.id; model = m.model },
  record (event created) { status = "in_progress"; model = m.model }
      ∷ record (event item_added) { item_id = m.id }
      ∷ [],
)

-- `content_block_start`
unfoldable pub start_block : ℕ → ContentBlock → ConverterState → Reaction
start_block index b s =
    let kind = (fields b).kind in
    (
      record s { block_types = put index kind s.block_types },
      if kind == "text"
          then at_block index (with_block (text_fields "") (event block_started)) ∷ []
          else if kind == "tool_use"
          then at_block index
              (with_block (tool_use_fields (fields b).id (fields b).name "") (event block_started))
            ∷ record (event item_added) { item_id = (fields b).id }
            ∷ []
          else if kind == "thinking"
          then at_block index (
              with_block (reasoning_fields (fields b).thinking (fields b).signature)
                (event block_started))
            ∷ []
          else [],
    )

-- `strings.HasPrefix`
abbrev pub has_prefix : String → String → Bool
has_prefix prefix text = elim (strip_prefix prefix text) [ none ↦ false | some rest ↦ true ]

abbrev pub is_search_status : String → Bool
is_search_status text = has_prefix "Search results for query:" text

-- `content_block_delta`
unfoldable pub delta_block : ℕ → StreamDelta → ConverterState → Reaction
delta_block index d s =
    let kind = at s.block_types index in
    if d.kind == "text_delta" || kind == "text"
    then if is_search_status d.text
      then (record s { suppress_text = put index true s.suppress_text }, [])
      else (s, at_block index (record (event text_delta) { delta = d.text }) ∷ [])
    else if d.kind == "input_json_delta" || kind == "tool_use"
    then (s, at_block index (record (event args_delta) { delta = d.partial_json }) ∷ [])
    else if d.kind == "thinking_delta" || kind == "thinking"
    then (
      s,
      at_block index
            (with_block (reasoning_fields "" "") (record (event text_delta) { delta = d.thinking }))
          ∷ [],
    )
    else if d.kind == "signature_delta"
    then if d.signature == ""
      then (s, [])
      else (record s { block_signatures = put index d.signature s.block_signatures }, [])
    else (s, [])

-- `content_block_stop`
unfoldable pub stop_block : ℕ → ConverterState → Reaction
stop_block index s =
    if flag_at s.suppress_text index
    then (record s { suppress_text = delete index s.suppress_text }, [])
    else if at s.block_types index == "thinking"
    then (
      s,
      at_block index
            (with_block (reasoning_fields "" (at s.block_signatures index)) (event block_done))
          ∷ event item_done
          ∷ [],
    )
    else (s, at_block index (event block_done) ∷ event item_done ∷ [])

-- The usage that `message_delta` reports.
unfoldable pub stream_usage : Usage → CoreUsage
stream_usage u = record {
  input_tokens = u.input_tokens +ℤ u.cache_read_input_tokens;
  output_tokens = u.output_tokens;
  total_tokens = pos 0;
  cached_input_tokens = u.cache_read_input_tokens;
}

-- `message_delta`
unfoldable pub delta_message : Option Usage → StreamDelta → ConverterState → Reaction
delta_message none d s = (s, [])
delta_message (some u) d s = (
  record s { final_usage = some (stream_usage u) },
  record (event in_progress) { usage = some (stream_usage u); stop_reason = d.stop_reason } ∷ [],
)

-- `error`
unfoldable pub report : Option ErrorObject → CoreError
report none = record { message = "unknown error"; kind = "api_error"; code = "" }
report (some e) = record { message = e.message; kind = e.kind; code = "" }

abbrev pub with_message :
    (MessageResponse → ConverterState → Reaction)
    → Option MessageResponse
    → ConverterState
    → Reaction
with_message f none s = (s, [])
with_message f (some m) s = f m s

abbrev pub with_content :
    (ContentBlock → ConverterState → Reaction) → Option ContentBlock → ConverterState → Reaction
with_content f none s = (s, [])
with_content f (some b) s = f b s

-- The switch of `convertEvent`.
unfoldable pub react : StreamEvent → ConverterState → Reaction
react ev s =
    if ev.kind == "message_start"
    then with_message start_message ev.message s
    else if ev.kind == "content_block_start"
    then with_content (start_block ev.index) ev.content_block s
    else if ev.kind == "content_block_delta"
    then delta_block ev.index ev.delta s
    else if ev.kind == "content_block_stop"
    then stop_block ev.index s
    else if ev.kind == "message_delta"
    then delta_message ev.usage ev.delta s
    else if ev.kind == "message_stop"
    then (
      s,
      record (event completed) { usage = s.final_usage; status = "completed"; model = s.model }
          ∷ [],
    )
    else if ev.kind == "error"
    then (s, record (event failed) { error = some (report ev.error) } ∷ [])
    else if ev.kind == "ping"
    then (s, event ping ∷ [])
    else (s, [])

-- `emit`, of one event after the other: each has the next number.
unfoldable pub emit_all : ConverterState → List CoreStreamEvent → Reaction
emit_all s [] = (s, [])
emit_all s (e ∷ es) =
    let next = suc s.seq_num in
    let (s', sent) = emit_all (record s { seq_num = next }) es in
    (s', record e { seq_num = next } ∷ sent)

-- `convertEvent`, but for the buffer.
unfoldable pub convert_event : StreamEvent → ConverterState → Reaction
convert_event ev s = let (s', es) = react ev s in emit_all s' es

-- `bufferStreamEvent`
unfoldable pub buffer_stream_event : StreamEvent → List StreamEvent → List StreamEvent
buffer_stream_event ev buffer = if leb 1024 (length buffer) then buffer else buffer ++ ev ∷ []

-- What a round of the loop meets: an event, or an error of `Next`. `ends` is `io.EOF`, or a context
-- that is done.
pub data Next : Type 0 where
  next_event : StreamEvent → Next
  ends : Next
  fails : String → Next

-- The goroutine of `ToCoreStream`, with the buffer of the adapter.
pub record Run : Type 0 where
  pub state : ConverterState
  pub buffer : List StreamEvent
  pub sent : List CoreStreamEvent

unfoldable pub run : List Next → ConverterState → List StreamEvent → Run
run [] s buffer = record { state = s; buffer = buffer; sent = [] }
run (ends ∷ rest) s buffer = record { state = s; buffer = buffer; sent = [] }
run (fails message ∷ rest) s buffer =
    let (s', sent) = emit_all s (
      record (event failed) { error = some (record { message = message; kind = ""; code = "" }) }
      ∷ []) in
    record { state = s'; buffer = buffer; sent = sent }
run (next_event ev ∷ rest) s buffer =
    let (s', first) = convert_event ev s in
    let r = run rest s' (buffer_stream_event ev buffer) in record r { sent = first ++ r.sent }

-- `ToCoreStream`
unfoldable pub to_core_stream : List Next → Run
to_core_stream received = run received new_converter_state []
