-- ===== src/Anthropic/Stream/Whole.antt =====
-- A whole stream: what a message, part by part, becomes on its way through `ToCoreStream`.
use moon_bridge.Prelude.{
  ℕ, suc, String, ◌≡◌, refl, ◌∙◌, ap, Bool, false, some, List, [], ◌∷◌, ◌++◌, map, ◌==◌,
  nat_comparable, string_comparable, ==_refl, All,
}
use moon_bridge.Prelude.Lists.{All-map_imp}
use moon_bridge.Prelude.GoMap.{GoMap, get, put, get-put}
use moon_bridge.Format.Blocks.{text_fields, tool_use_fields, reasoning_fields}
use moon_bridge.Format.Events.{
  event, created, completed, block_started, block_done, item_added, item_done,
}
use moon_bridge.Anthropic.Types.{zero_fields, Usage, MessageResponse, StreamEvent}
use moon_bridge.Anthropic.Stream.{
  ConverterState, new_converter_state, react, start_message, start_block, delta_block, stop_block,
  delta_message, convert_event, at, flag_at, at_block, with_block, is_search_status, stream_usage,
  buffer_stream_event, next_event, run, to_core_stream,
}
use moon_bridge.Anthropic.Stream.Parts.{
  Part, sse, start_event, stop_event, text_event, json_event, thought_event, signature_event,
  part_events, parts_events, message_events, core_text, core_json, core_thought, core_signature,
  core_part, core_parts, core_message, unnumbered, IsSpoken, text_part, tool_part, thinking_part,
}
use moon_bridge.Anthropic.Stream.Becomes.{send, IsReady, IsOpen, Becomes, one, ◌▸◌, All_of, each}

module _ (model : String) (i : ℕ) where
  one_text :
      (t : String)
      → is_search_status t ≡ false
      → Becomes
          (IsOpen model i "text")
          (text_event i t ∷ [])
          (core_text i t ∷ [])
          (IsOpen model i "text")
  unfolding react delta_block
  one_text t h = one (text_event i t) (core_text i t ∷ []) (λ n s p. p) refl (λ s p. rw h (refl, p))

  one_json :
      (t : String)
      → Becomes
          (IsOpen model i "tool_use")
          (json_event i t ∷ [])
          (core_json i t ∷ [])
          (IsOpen model i "tool_use")
  unfolding react delta_block
  one_json t = one (json_event i t) (core_json i t ∷ []) (λ n s p. p) refl (λ s p. rw p.1 (refl, p))

  one_thought :
      (t : String)
      → Becomes
          (IsOpen model i "thinking")
          (thought_event i t ∷ [])
          (core_thought i t ∷ [])
          (IsOpen model i "thinking")
  unfolding react delta_block
  one_thought t =
      one (thought_event i t) (core_thought i t ∷ []) (λ n s p. p) refl (λ s p. rw p.1 (refl, p))

  one_signature :
      (t : String)
      → Becomes
          (IsOpen model i "thinking")
          (signature_event i t ∷ [])
          (core_signature i t ∷ [])
          (IsOpen model i "thinking")
  unfolding react delta_block
  one_signature t =
      one (signature_event i t) (core_signature i t ∷ []) (λ n s p. p) refl
        (λ s p. rw p.1 (refl, p))

at-put : (i : ℕ) (kind : String) (m : GoMap ℕ String) → at (put i kind m) i ≡ kind
at-put i kind m = rw (get-put i i kind m, at) (rw (==_refl i) refl)

flag_at_empty : (m : GoMap ℕ Bool) (i : ℕ) → m ≡ [] → flag_at m i ≡ false
unfolding get
flag_at_empty m i h = rw h refl

at_empty : (m : GoMap ℕ String) (i : ℕ) → m ≡ [] → at m i ≡ ""
unfolding get
at_empty m i h = rw h refl

module _ (model : String) (i : ℕ) where
  start_text :
      Becomes
        (IsReady model)
        (start_event i (record zero_fields { kind = "text" }) ∷ [])
        (at_block i (with_block (text_fields "") (event block_started)) ∷ [])
        (IsOpen model i "text")
  unfolding react start_block
  start_text = one _ _ (λ n s p. p) refl (λ s p. (refl, (p, at-put i "text" s.block_types)))

  start_tool :
      (id name : String)
      → Becomes
          (IsReady model)
          (start_event i (record zero_fields { kind = "tool_use"; id = id; name = name }) ∷ [])
          (at_block i (with_block (tool_use_fields id name "") (event block_started))
            ∷ record (event item_added) { item_id = id }
            ∷ [])
          (IsOpen model i "tool_use")
  unfolding react start_block
  start_tool id name =
      one _ _ (λ n s p. p) refl (λ s p. (refl, (p, at-put i "tool_use" s.block_types)))

  start_thinking :
      (text signature : String)
      → Becomes
          (IsReady model)
          (start_event i
              (record zero_fields { kind = "thinking"; thinking = text; signature = signature })
            ∷ [])
          (at_block i (with_block (reasoning_fields text signature) (event block_started)) ∷ [])
          (IsOpen model i "thinking")
  unfolding react start_block
  start_thinking text signature =
      one _ _ (λ n s p. p) refl (λ s p. (refl, (p, at-put i "thinking" s.block_types)))

  stop_plain :
      (kind : String)
      → (kind == "thinking") ≡ false
      → Becomes
          (IsOpen model i kind)
          (stop_event i ∷ [])
          (at_block i (event block_done) ∷ event item_done ∷ [])
          (IsReady model)
  unfolding react stop_block
  stop_plain kind h =
      one _ _ (λ n s p. p) refl
        (λ s p. rw (flag_at_empty s.suppress_text i p.0.0) (rw p.1 (rw h (refl, p.0))))

  stop_thinking :
      Becomes
        (IsOpen model i "thinking")
        (stop_event i ∷ [])
        (at_block i (with_block (reasoning_fields "" "") (event block_done)) ∷ event item_done ∷ [])
        (IsReady model)
  unfolding react stop_block
  stop_thinking =
      one _ _ (λ n s p. p) refl
        (λ s p.
          rw (flag_at_empty s.suppress_text i p.0.0)
            (rw p.1 (rw (at_empty s.block_signatures i p.0.1) (refl, p.0))))

-- A part, from its start to its stop.
part :
    (model : String) (i : ℕ) (p : Part)
    → IsSpoken p
    → Becomes (IsReady model) (part_events i p) (core_part i p) (IsReady model)
part model i (text_part ts) h =
    start_text model i
    ▸ each (text_event i) (core_text i) ts (All-map_imp _ _ ts (one_text model i) h)
    ▸ stop_plain model i "text" refl
part model i (tool_part id name ts) h =
    start_tool model i id name
    ▸ each (json_event i) (core_json i) ts (All_of ts (one_json model i))
    ▸ stop_plain model i "tool_use" refl
part model i (thinking_part text signature ts signatures) h =
    start_thinking model i text signature
    ▸ each (thought_event i) (core_thought i) ts (All_of ts (one_thought model i))
    ▸ each (signature_event i) (core_signature i) signatures
        (All_of signatures (one_signature model i))
    ▸ stop_thinking model i

parts :
    (model : String) (i : ℕ) (ps : List Part)
    → All IsSpoken ps
    → Becomes (IsReady model) (parts_events i ps) (core_parts i ps) (IsReady model)
unfolding send
parts model i [] h = record { from = λ s p. (refl, p) }
parts model i (p ∷ ps) h = part model i p h.0 ▸ parts model (suc i) ps h.1

-- The usage of the message is known.
abbrev IsCounted : String → Usage → ConverterState → Type 0
IsCounted model u s = (s.model ≡ model) × (s.final_usage ≡ some (stream_usage u))

completion :
    (model : String) (u : Usage)
    → Becomes
        (IsCounted model u)
        (sse "message_stop" ∷ [])
        (record (event completed) {
          usage = some (stream_usage u);
          status = "completed";
          model = model;
        }
          ∷ [])
        (λ s. Unit)
unfolding react
completion model u = one _ _ (λ n s p. tt) refl (λ s p. (rw p.0 (rw p.1 refl), tt))

opening :
    (m : MessageResponse)
    → Becomes
        (λ s. s ≡ new_converter_state)
        (record (sse "message_start") { message = some m } ∷ [])
        (record (event created) { status = "in_progress"; model = m.model }
          ∷ record (event item_added) { item_id = m.id }
          ∷ [])
        (IsReady m.model)
unfolding react start_message
opening m = one _ _ (λ n s p. p) refl (λ s p. rw p (refl, (refl, refl, refl)))

whole_message :
    (m : MessageResponse) (ps : List Part) (u : Usage) (stop_reason : String)
    → All IsSpoken ps
    → Becomes
        (λ s. s ≡ new_converter_state)
        (message_events m ps u stop_reason)
        (core_message m ps u stop_reason)
        (λ s. Unit)
unfolding react delta_message
whole_message m ps u stop_reason h =
    opening m
    ▸ parts m.model 0 ps h
    ▸ one {Q = IsCounted m.model u} _ _ (λ n s p. p) refl (λ s p. (refl, (p.2, refl)))
    ▸ completion m.model u

-- A stream that is not cut sends what its events become.
sent-run :
    (evs : List StreamEvent) (s : ConverterState) (buffer : List StreamEvent)
    → (run (map next_event evs) s buffer).sent ≡ (send evs s).1
unfolding run send
sent-run [] s buffer = refl
sent-run (ev ∷ evs) s buffer =
    ap (λ t. (convert_event ev s).1 ++ t)
      (sent-run evs (convert_event ev s).0 (buffer_stream_event ev buffer))

-- The stream of a message of text, tool calls and thinking, of any number and length, of which no
-- text begins like a status of the search, becomes, but for the numbers, the core events that its
-- parts describe: each part is started, sent piece by piece in order and closed, then usage and
-- completion follow. A signature that comes in a delta is lost: it becomes an empty text, and the
-- closed block has none.
pub to_core_stream-message_events :
    (m : MessageResponse) (ps : List Part) (u : Usage) (stop_reason : String)
    → All IsSpoken ps
    → map unnumbered (to_core_stream (map next_event (message_events m ps u stop_reason))).sent
      ≡ core_message m ps u stop_reason
unfolding to_core_stream
to_core_stream-message_events m ps u stop_reason h =
    ap (map unnumbered) (sent-run (message_events m ps u stop_reason) new_converter_state [])
    ∙ ((whole_message m ps u stop_reason h).from new_converter_state refl).0
