-- ===== src/Thinking.antt =====
-- internal/extension/deepseek_v4/state.go: the thinking blocks that are kept for later turns.
-- `Records` is one of the two bounded maps of `State`, `Stream` is `StreamState`. The lock makes each
-- method one step; nil receivers are left out. SHA-256 with its hexadecimal form is a parameter.
pub mod Block
pub mod Records
pub mod Stream
pub mod Recall
mod Tests
use Prim.Native.String.{◌++◌ as append}
use moon_bridge.Prelude.{
  ℕ, String, Bool, true, false, not, ◌&&◌, ◌||◌, Option, none, some, List, [], ◌∷◌, ◌++◌,
  if◌then◌else◌, ◌==◌, nat_comparable, string_comparable, is_empty,
}
use moon_bridge.Prelude.GoMap.{get}
use moon_bridge.Thinking.Block.{
  CoreContentBlock, zero_block, reasoning, has_thinking_payload, normalize_thinking_block,
  has_thinking_block, text_from_blocks,
}
use moon_bridge.Thinking.Records.{Store, empty_store, insert_new, prune_store}
use moon_bridge.Thinking.Stream.{StreamState}

-- `State`: the records by tool call and by the hash of a text, each with its order, and the limit.
pub record State : Type 0 where
  pub by_tool_call : Store
  pub by_text : Store
  pub limit : ℕ

-- `NewState`
abbrev pub new_state : State
new_state = record { by_tool_call = empty_store; by_text = empty_store; limit = 1024 }

-- `pruneLocked`
unfoldable pub prune_state : State → State
prune_state s = record s {
  by_tool_call = prune_store s.limit s.by_tool_call;
  by_text = prune_store s.limit s.by_text;
}

-- The loop of `RememberForToolCalls`.
unfoldable pub insert_all : List String → CoreContentBlock → Store → Store
insert_all [] block store = store
insert_all (id ∷ ids) block store =
    insert_all ids block (if id == "" then store else insert_new id block store)

-- `RememberForToolCalls`
unfoldable pub remember_for_tool_calls : List String → CoreContentBlock → State → State
remember_for_tool_calls ids block s =
    if not (has_thinking_payload block) || is_empty ids
    then s
    else prune_state
        (record s { by_tool_call = insert_all ids (normalize_thinking_block block) s.by_tool_call })

-- `CachedForToolCall`
unfoldable pub cached_for_tool_call : String → State → Option CoreContentBlock
cached_for_tool_call id s = if id == "" then none else get id s.by_tool_call.records

-- What `RememberFromContent` gathers from the blocks.
pub record Gathered : Type 0 where
  pub thinking_block : CoreContentBlock
  pub tool_call_ids : List String
  pub assistant_text : String

unfoldable pub gather : List CoreContentBlock → Gathered → Gathered
gather [] g = g
gather (b ∷ bs) g = gather bs (
    if b.kind == "reasoning"
    then record g { thinking_block = b }
    else if b.kind == "reasoning_content"
    then record g { thinking_block = reasoning b.text "" }
    else if b.kind == "tool_use"
    then record g { tool_call_ids = g.tool_call_ids ++ b.tool_use_id ∷ [] }
    else if b.kind == "text"
    then record g { assistant_text = append g.assistant_text b.text }
    else g)

module _ (sha256_hex : String → String) where
  -- `RememberForAssistantText`; `thinkingTextKey` is the hash.
  unfoldable pub remember_for_assistant_text : String → CoreContentBlock → State → State
  remember_for_assistant_text text block s =
      if text == "" || not (has_thinking_payload block)
      then s
      else prune_state (record s {
        by_text = insert_new (sha256_hex text) (normalize_thinking_block block) s.by_text;
      })

  -- `RememberFromContent`
  unfoldable pub remember_from_content : List CoreContentBlock → State → State
  remember_from_content blocks s =
      let g =
        gather blocks
          (record { thinking_block = zero_block; tool_call_ids = []; assistant_text = "" }) in
      remember_for_assistant_text g.assistant_text g.thinking_block
        (remember_for_tool_calls g.tool_call_ids g.thinking_block s)

  -- `RememberStreamResult`
  unfoldable pub remember_stream_result : StreamState → String → State → State
  remember_stream_result stream output_text s =
      if not (has_thinking_payload stream.completed_thinking)
      then s
      else if not (is_empty stream.tool_call_ids)
      then remember_for_tool_calls stream.tool_call_ids stream.completed_thinking s
      else remember_for_assistant_text output_text stream.completed_thinking s

  -- `cachedForAssistantText`
  unfoldable pub cached_for_assistant_text : String → State → Option CoreContentBlock
  cached_for_assistant_text text s =
      if text == "" then none else get (sha256_hex text) s.by_text.records

  -- `PrependCachedForAssistantText`
  unfoldable pub prepend_cached_for_assistant_text :
      List CoreContentBlock → State → List CoreContentBlock
  prepend_cached_for_assistant_text blocks s =
      if has_thinking_block blocks
      then blocks
      else elim (cached_for_assistant_text (text_from_blocks blocks) s) [
        | none ↦ blocks
        | some block ↦ block ∷ blocks
      ]
