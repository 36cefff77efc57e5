-- ===== src/Chat/Choice.antt =====
-- internal/protocol/chat/adapter.go: what the stream of `ToCoreStream` keeps for each choice, and what a
-- piece of a choice becomes. The index of a choice is never negative. `json.Unmarshal` of a text is a
-- parameter, none where it fails.
use Prim.Native.String.{◌++◌ as append}
use moon_bridge.Prelude.{
  ℕ, zero, suc, ◌+◌, ◌*◌, ◌-◌, String, Bool, true, false, not, ◌&&◌, ◌||◌, Option, none, some, List,
  [], ◌∷◌, ◌++◌, if◌then◌else◌, ◌==◌, nat_comparable, string_comparable,
}
use moon_bridge.Prelude.Int.{ℤ, pos, negsuc}
use moon_bridge.Prelude.GoMap.{GoMap, get, put}
use moon_bridge.Format.Blocks
use moon_bridge.Format.Blocks.{
  CoreFields, zero_fields, text_fields, tool_use_fields, reasoning_fields, nil,
}
use moon_bridge.Format.Events.{
  CoreStreamEvent, event, block_started, block_done, text_delta, args_delta, args_done,
}
use moon_bridge.Chat.Types.{ToolCall, Delta, StreamChoice}

-- `choiceState`; `call_started` is none where the map is nil.
pub record ChoiceState : Type 0 where
  pub started : Bool
  pub block_index : ℕ
  pub has_reasoning : Bool
  pub reason_index : ℕ
  pub tool_call_idx : ℕ
  pub call_started : Option (GoMap ℕ Bool)
  pub tool_call_slot : GoMap ℕ ℕ
  pub reasoning_content : String

-- `&choiceState{blockIndex: sc.Index * 2}`
abbrev pub new_choice_state : ℕ → ChoiceState
new_choice_state index = record {
  started = false;
  block_index = index * 2;
  has_reasoning = false;
  reason_index = 0;
  tool_call_idx = 0;
  call_started = none;
  tool_call_slot = [];
  reasoning_content = "";
}

-- A new state, and the events to emit.
abbrev pub Step : Type 0
Step = ChoiceState × List CoreStreamEvent

infixl 30 ◌▹◌
-- One step after another.
abbrev pub ◌▹◌ : Step → (ChoiceState → Step) → Step
(s, es) ▹ f = let (s', fs) = f s in (s', es ++ fs)

-- An event of a choice about the block at an index.
abbrev pub of_choice : ℕ → ℕ → CoreStreamEvent → CoreStreamEvent
of_choice ci index e = record e { index = index; choice_index = some ci }

abbrev pub with_block : CoreFields → CoreStreamEvent → CoreStreamEvent
with_block f e = record e { content_block = some (Blocks.block f nil) }

-- A block that has nothing but its type.
abbrev pub only : String → CoreFields
only kind = record zero_fields { kind = kind }

-- The first appearance with the role.
unfoldable pub begin_choice : ℕ → Delta → ChoiceState → Step
begin_choice ci d s =
    if not s.started && d.role == "assistant"
    then if d.reasoning_content == ""
      then (
        record s { started = true },
        of_choice ci s.block_index (with_block (only "text") (event block_started)) ∷ [],
      )
      else (
        record s { started = true; has_reasoning = true; reason_index = s.block_index },
        of_choice ci s.block_index (with_block (only "reasoning") (event block_started)) ∷ [],
      )
    else (s, [])

-- The change to a reasoning block: the index moves before the old block is closed.
unfoldable pub enter_reasoning : ℕ → ChoiceState → Step
enter_reasoning ci s =
    if s.has_reasoning
    then (s, [])
    else let next = s.block_index + 1 in
      (
        record s { has_reasoning = true; reason_index = next; block_index = next },
        of_choice ci next (event block_done)
            ∷ of_choice ci next (with_block (only "reasoning") (event block_started))
            ∷ [],
      )

-- A piece of reasoning, and the part of a delta for it.
abbrev pub reasoning_piece : ℕ → Delta → ChoiceState → Step
reasoning_piece ci d s = (
  record s { reasoning_content = append s.reasoning_content d.reasoning_content },
  of_choice ci s.reason_index (record (event text_delta) { delta = d.reasoning_content }) ∷ [],
)

unfoldable pub send_reasoning : ℕ → Delta → ChoiceState → Step
send_reasoning ci d s =
    if d.reasoning_content == "" then (s, []) else enter_reasoning ci s ▹ reasoning_piece ci d

-- The change from the reasoning block to a text block.
unfoldable pub leave_reasoning : ℕ → Delta → ChoiceState → Step
leave_reasoning ci d s =
    let next = s.reason_index + 1 in
    if not (d.content == "") && s.has_reasoning
    then (
      record s { reasoning_content = ""; has_reasoning = false; block_index = next },
      of_choice ci s.reason_index
            (with_block (reasoning_fields s.reasoning_content "") (event block_done))
          ∷ of_choice ci next (with_block (only "text") (event block_started))
          ∷ [],
    )
    else (s, [])

-- A piece of text.
unfoldable pub send_content : ℕ → Delta → ChoiceState → Step
send_content ci d s =
    if d.content == ""
    then (s, [])
    else (s, of_choice ci s.block_index (record (event text_delta) { delta = d.content }) ∷ [])

-- `callPos`
abbrev pub call_pos : ℕ → Option ℤ → ℕ
call_pos tool_pos none = tool_pos
call_pos tool_pos (some (pos n)) = n
call_pos tool_pos (some (negsuc n)) = tool_pos

abbrev pub flags_of : Option (GoMap ℕ Bool) → GoMap ℕ Bool
flags_of none = []
flags_of (some m) = m

-- `state.callStarted[slot]`
abbrev pub call_flag : ChoiceState → ℕ → Bool
call_flag s slot = elim (get slot (flags_of s.call_started)) [ none ↦ false | some b ↦ b ]

-- The maps are made where they are nil.
abbrev pub with_maps : ChoiceState → ChoiceState
with_maps s = elim s.call_started [
  | none ↦ record s { call_started = some []; tool_call_idx = s.block_index + 1 }
  | some m ↦ s
]

-- The slot of a call, and the state in which it is taken.
unfoldable pub take_slot : ℕ → ChoiceState → ChoiceState × ℕ
take_slot call_pos s = elim (get call_pos s.tool_call_slot) [
  | some slot ↦ (s, slot)
  | none ↦ (
    record s {
      tool_call_slot = put call_pos s.tool_call_idx s.tool_call_slot;
      tool_call_idx = s.tool_call_idx + 1;
    },
    s.tool_call_idx,
  )
]

-- The start of a call, at its first identifier or name.
unfoldable pub start_call : ℕ → ℕ → ToolCall → ChoiceState → Step
start_call ci slot tc s =
    if not (call_flag s slot) && (not (tc.id == "") || not (tc.name == ""))
    then (
      record s { call_started = some (put slot true (flags_of s.call_started)) },
      of_choice ci slot (with_block (tool_use_fields tc.id tc.name "") (event block_started)) ∷ [],
    )
    else (s, [])

-- The piece of arguments that is sent, if any.
abbrev pub piece_of : Option String → String → String
piece_of (some decoded) arguments = decoded
piece_of none arguments = arguments

module _ (unquote : String → Option String) where
  unfoldable pub send_arguments : ℕ → ℕ → ToolCall → ChoiceState → Step
  send_arguments ci slot tc s =
      let piece = piece_of (unquote tc.arguments) tc.arguments in
      if not (call_flag s slot) || tc.arguments == "" || piece == ""
      then (s, [])
      else (s, of_choice ci slot (record (event args_delta) { delta = piece }) ∷ [])

  -- A round of the loop over the tool calls.
  unfoldable pub send_call : ℕ → ℕ → ToolCall → ChoiceState → Step
  send_call ci tool_pos tc s =
      let (s', slot) = take_slot (call_pos tool_pos tc.index) (with_maps s) in
      start_call ci slot tc s' ▹ send_arguments ci slot tc

  -- The loop, from a position.
  unfoldable pub send_calls : ℕ → ℕ → List ToolCall → ChoiceState → Step
  send_calls ci tool_pos [] s = (s, [])
  send_calls ci tool_pos (tc ∷ tcs) s =
      send_call ci tool_pos tc s ▹ send_calls ci (suc tool_pos) tcs

-- `mapFinishReason`
unfoldable pub map_finish_reason : String → String
map_finish_reason reason =
    if reason == "stop"
    then "end_turn"
    else if reason == "length"
    then "max_tokens"
    else if reason == "tool_calls"
    then "tool_use"
    else reason

-- The loop that closes the calls, over `count` slots from `idx`.
unfoldable pub close_calls : ℕ → ℕ → ℕ → ChoiceState → List CoreStreamEvent
close_calls ci zero idx s = []
close_calls ci (suc count) idx s =
    let rest = close_calls ci count (suc idx) s in
    if call_flag s idx
    then of_choice ci idx (event args_done) ∷ of_choice ci idx (event block_done) ∷ rest
    else rest

-- The end of a choice.
unfoldable pub finish_choice : ℕ → String → ChoiceState → Step
finish_choice ci finish_reason s =
    let done = record (event block_done) { stop_reason = map_finish_reason finish_reason } in
    let calls = close_calls ci (s.tool_call_idx - (s.block_index + 1)) (s.block_index + 1) s in
    if finish_reason == ""
    then (s, [])
    else if s.has_reasoning
    then (
      record s { reasoning_content = "" },
      of_choice ci s.block_index (with_block (reasoning_fields s.reasoning_content "") done)
          ∷ calls,
    )
    else (s, of_choice ci s.block_index done ∷ calls)

module _ (unquote : String → Option String) where
  -- A round of the loop over the choices of a chunk.
  unfoldable pub choice_step : StreamChoice → ChoiceState → Step
  choice_step sc s =
      let d = sc.delta in
      begin_choice sc.index d s
      ▹ send_reasoning sc.index d
      ▹ leave_reasoning sc.index d
      ▹ send_content sc.index d
      ▹ send_calls unquote sc.index 0 d.tool_calls
      ▹ finish_choice sc.index sc.finish_reason
