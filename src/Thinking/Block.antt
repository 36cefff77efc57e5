-- ===== src/Thinking/Block.antt =====
-- Content blocks and their thinking: the helpers of internal/extension/deepseek_v4/state.go on
-- `format.CoreContentBlock` of internal/format/types.go.
use Prim.Native.String.{◌++◌ as append}
use moon_bridge.Prelude.{
  String, Bool, true, false, not, ◌&&◌, ◌||◌, List, [], ◌∷◌, if◌then◌else◌, ◌==◌, string_comparable,
}

-- The fields that the state reads; the others, for images, tools and extensions, are passed on.
pub record CoreContentBlock : Type 0 where
  pub kind : String
  pub text : String
  pub tool_use_id : String
  pub reasoning_text : String
  pub reasoning_signature : String
  pub passed_on : List String

abbrev pub zero_block : CoreContentBlock
zero_block = record {
  kind = "";
  text = "";
  tool_use_id = "";
  reasoning_text = "";
  reasoning_signature = "";
  passed_on = [];
}

abbrev pub reasoning : String → String → CoreContentBlock
reasoning text signature = record zero_block {
  kind = "reasoning";
  reasoning_text = text;
  reasoning_signature = signature;
}

-- `hasThinkingPayload`
abbrev pub has_thinking_payload : CoreContentBlock → Bool
has_thinking_payload b =
    b.kind == "reasoning" && (not (b.reasoning_text == "") || not (b.reasoning_signature == ""))

-- `normalizeThinkingBlock`
abbrev pub normalize_thinking_block : CoreContentBlock → CoreContentBlock
normalize_thinking_block b = reasoning b.reasoning_text b.reasoning_signature

-- `HasThinkingBlock`
unfoldable pub has_thinking_block : List CoreContentBlock → Bool
has_thinking_block [] = false
has_thinking_block (b ∷ bs) = b.kind == "reasoning" || has_thinking_block bs

-- `RequiredThinkingBlock`
abbrev pub required_thinking_block : CoreContentBlock
required_thinking_block = reasoning "" ""

-- `textFromBlocks`
unfoldable pub text_from_blocks : List CoreContentBlock → String
text_from_blocks [] = ""
text_from_blocks (b ∷ bs) =
    let rest = text_from_blocks bs in if b.kind == "text" then append b.text rest else rest

-- `PrependThinkingBlockForAssistantText`
unfoldable pub prepend_thinking_block_for_assistant_text :
    List CoreContentBlock → CoreContentBlock → List CoreContentBlock × Bool
prepend_thinking_block_for_assistant_text blocks block =
    if has_thinking_block blocks
    then (blocks, false)
    else (normalize_thinking_block block ∷ blocks, true)

-- `PrependRequiredThinkingForAssistantText`
abbrev pub prepend_required_thinking_for_assistant_text :
    List CoreContentBlock → List CoreContentBlock × Bool
prepend_required_thinking_for_assistant_text blocks =
    prepend_thinking_block_for_assistant_text blocks required_thinking_block
