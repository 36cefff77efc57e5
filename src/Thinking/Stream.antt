-- ===== src/Thinking/Stream.antt =====
-- `StreamState` of internal/extension/deepseek_v4/state.go: the thinking that a stream builds up, block
-- by block. `IsReasoningContentBlock` is that of plugin.go beside it.
pub mod Deltas
use Prim.Native.String.{◌++◌ as append}
use moon_bridge.Prelude.{
  ℕ, String, Bool, true, false, not, ◌||◌, Option, none, some, List, [], ◌∷◌, ◌++◌, if◌then◌else◌,
  ◌==◌, nat_comparable, string_comparable,
}
use moon_bridge.Prelude.Int.{ℤ}
use moon_bridge.Prelude.GoMap.{GoMap, get, put, delete}
use moon_bridge.Thinking.Block.{CoreContentBlock, zero_block, reasoning}

pub record StreamState : Type 0 where
  pub thinking_text : GoMap ℕ String
  pub thinking_signature : GoMap ℕ String
  pub completed_thinking : CoreContentBlock
  pub tool_call_ids : List String

-- `NewStreamState`
abbrev pub new_stream_state : StreamState
new_stream_state = record {
  thinking_text = [];
  thinking_signature = [];
  completed_thinking = zero_block;
  tool_call_ids = [];
}

-- `anthropic.StreamDelta`, the fields that are read.
pub record StreamDelta : Type 0 where
  pub kind : String
  pub text : String
  pub thinking : String
  pub signature : String

abbrev pub first_nonempty : String → String → String
first_nonempty a b = if a == "" then b else a

-- `m[index]`, with the empty text for a missing key.
abbrev pub text_at : ℕ → GoMap ℕ String → String
text_at index m = elim (get index m) [ none ↦ "" | some text ↦ text ]

-- `Reset`
unfoldable pub reset : ℕ → StreamState → StreamState
reset index s = record s {
  thinking_text = delete index s.thinking_text;
  thinking_signature = delete index s.thinking_signature;
}

-- `IsReasoningContentBlock`
abbrev pub is_reasoning_content_block : CoreContentBlock → Bool
is_reasoning_content_block b = b.kind == "reasoning" || b.kind == "reasoning_content"

-- `Start`: the state, and whether the block was taken.
unfoldable pub start : ℕ → CoreContentBlock → StreamState → StreamState × Bool
start index b s = if not (is_reasoning_content_block b) then (s, false) else (
  record s {
    thinking_text = put index (first_nonempty b.reasoning_text b.text) s.thinking_text;
    thinking_signature = put index b.reasoning_signature s.thinking_signature;
  },
  true,
)

-- `Delta`
unfoldable pub delta : ℕ → StreamDelta → StreamState → StreamState × Bool
delta index d s =
    if d.kind == "thinking_delta" || d.kind == "reasoning_content_delta"
    then (
      record s {
        thinking_text =
            put index (append (text_at index s.thinking_text) (first_nonempty d.thinking d.text))
              s.thinking_text;
      },
      true,
    )
    else if d.kind == "signature_delta"
    then (
      record s {
        thinking_signature =
            put index
              (append (text_at index s.thinking_signature) (first_nonempty d.signature d.text))
              s.thinking_signature;
      },
      true,
    )
    else (s, false)

-- `Stop`
unfoldable pub stop : ℕ → StreamState → StreamState × Bool
stop index s = elim (get index s.thinking_text) [
  | none ↦ (s, false)
  | some text ↦
      (record s { completed_thinking = reasoning text (text_at index s.thinking_signature) }, true)
]

-- `RecordToolCall`
unfoldable pub record_tool_call : String → StreamState → StreamState
record_tool_call id s =
    if id == "" then s else record s { tool_call_ids = s.tool_call_ids ++ id ∷ [] }
