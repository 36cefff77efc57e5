-- ===== src/Anthropic/Blocks.antt =====
-- The conversion of content blocks in internal/protocol/anthropic/adapter.go.
pub mod RoundTrip
use moon_bridge.Prelude.{
  Bool, true, false, Option, none, some, if◌then◌else◌, ◌==◌, string_comparable,
}
use moon_bridge.Format.Json
use moon_bridge.Format.Json.{Json, Members, lookup, text_of}
use moon_bridge.Format.Blocks
use moon_bridge.Format.Blocks.{
  CoreFields, CoreContentBlock, CoreBlocks, text_fields, image_fields, tool_use_fields,
  tool_result_fields, reasoning_fields,
}
use moon_bridge.Anthropic.Types
use moon_bridge.Anthropic.Types.{
  CacheControl, BlockFields, ContentBlock, Content, ContentBlocks, no_content, text_content,
  blocks_content, json_content,
}

-- `extractCacheControl`
unfoldable pub extract_cache_control : Members → Option CacheControl
extract_cache_control ext = elim (lookup "cache_control" ext) [
  | some (Json.object v) ↦
      if text_of (lookup "type" v) == "ephemeral"
      then some (record { kind = "ephemeral"; ttl = text_of (lookup "ttl" v) })
      else none
  | some (Json.text v) ↦
      if v == "ephemeral" then some (record { kind = "ephemeral"; ttl = "" }) else none
  | _ ↦ none
]

-- The fields of `toContentBlock`.
unfoldable pub to_fields : CoreFields → BlockFields
to_fields b =
    if b.kind == "text"
    then record Types.zero_fields {
      kind = "text";
      text = b.text;
      cache_control = extract_cache_control b.extensions;
    }
    else if b.kind == "image"
    then record Types.zero_fields {
      kind = "image";
      source =
          some
            (record { kind = "base64"; url = ""; media_type = b.media_type; data_ = b.image_data });
    }
    else if b.kind == "tool_use"
    then record Types.zero_fields {
      kind = "tool_use";
      id = b.tool_use_id;
      name = b.tool_name;
      input = b.tool_input;
    }
    else if b.kind == "tool_result"
    then record Types.zero_fields { kind = "tool_result"; tool_use_id = b.tool_use_id }
    else if b.kind == "reasoning"
    then record Types.zero_fields {
      kind = "thinking";
      thinking = b.reasoning_text;
      signature = b.reasoning_signature;
      cache_control = extract_cache_control b.extensions;
    }
    else record Types.zero_fields { kind = "text"; text = b.text }

-- Only a tool result has content: its converted blocks, if there are any.
abbrev pub content_for : Bool → ContentBlocks → Content
content_for true (ContentBlocks.cons b bs) = blocks_content (ContentBlocks.cons b bs)
content_for _ _ = no_content

unfoldable mutual
  -- `toContentBlock`
  pub to_content_block : CoreContentBlock → ContentBlock
  to_content_block (CoreContentBlock.block f bs) =
      let nested = to_content_blocks bs in
      ContentBlock.block (to_fields f) (content_for (f.kind == "tool_result") nested)

  -- `toContentBlocks`, on the nested lists.
  pub to_content_blocks : CoreBlocks → ContentBlocks
  to_content_blocks CoreBlocks.nil = ContentBlocks.nil
  to_content_blocks (CoreBlocks.cons b bs) =
      ContentBlocks.cons (to_content_block b) (to_content_blocks bs)

-- The fields of `fromContentBlock`.
unfoldable pub from_fields : BlockFields → CoreFields
from_fields b =
    if b.kind == "text"
    then text_fields b.text
    else if b.kind == "image"
    then elim b.source [
      | none ↦ image_fields "" ""
      | some source ↦ image_fields source.data_ source.media_type
    ]
    else if b.kind == "tool_use"
    then tool_use_fields b.id b.name b.input
    else if b.kind == "tool_result"
    then tool_result_fields b.tool_use_id
    else if b.kind == "thinking"
    then reasoning_fields b.thinking b.signature
    else text_fields b.text

abbrev pub results_for : Bool → CoreBlocks → CoreBlocks
results_for true bs = bs
results_for false bs = CoreBlocks.nil

unfoldable mutual
  -- `fromContentBlock`
  pub from_content_block : ContentBlock → CoreContentBlock
  from_content_block (ContentBlock.block f c) =
      let nested = from_content c in
      CoreContentBlock.block (from_fields f) (results_for (f.kind == "tool_result") nested)

  -- The type switch on the content of a tool result.
  pub from_content : Content → CoreBlocks
  from_content no_content = CoreBlocks.nil
  from_content (text_content t) =
      CoreBlocks.cons (CoreContentBlock.block (text_fields t) CoreBlocks.nil) CoreBlocks.nil
  from_content (blocks_content bs) = from_content_blocks bs
  from_content (json_content j) = CoreBlocks.nil

  -- `fromContentBlocks`, on the nested lists.
  pub from_content_blocks : ContentBlocks → CoreBlocks
  from_content_blocks ContentBlocks.nil = CoreBlocks.nil
  from_content_blocks (ContentBlocks.cons b bs) =
      CoreBlocks.cons (from_content_block b) (from_content_blocks bs)
