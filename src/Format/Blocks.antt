-- ===== src/Format/Blocks.antt =====
-- `CoreContentBlock` of internal/format/types.go. A block holds a list of blocks, so the list in it is a
-- copy of `List` beside the type.
use moon_bridge.Prelude.{String}
use moon_bridge.Format.Json.{Members, end}

-- The fields of a block but for its tool results. `ToolInput` is raw JSON, a text.
pub record CoreFields : Type 0 where
  pub kind : String
  pub text : String
  pub image_data : String
  pub media_type : String
  pub tool_use_id : String
  pub tool_name : String
  pub tool_input : String
  pub reasoning_text : String
  pub reasoning_signature : String
  pub extensions : Members

mutual
  -- `CoreContentBlock`: its fields and its `ToolResultContent`.
  pub data CoreContentBlock : Type 0 where
    block : CoreFields → CoreBlocks → CoreContentBlock

  pub data CoreBlocks : Type 0 where
    nil : CoreBlocks
    cons : CoreContentBlock → CoreBlocks → CoreBlocks

abbrev pub fields : CoreContentBlock → CoreFields
fields (block f bs) = f

abbrev pub results : CoreContentBlock → CoreBlocks
results (block f bs) = bs

-- The zero value.
abbrev pub zero_fields : CoreFields
zero_fields = record {
  kind = "";
  text = "";
  image_data = "";
  media_type = "";
  tool_use_id = "";
  tool_name = "";
  tool_input = "";
  reasoning_text = "";
  reasoning_signature = "";
  extensions = end;
}

-- The blocks of each type, with the fields that belong to it.
abbrev pub text_fields : String → CoreFields
text_fields text = record zero_fields { kind = "text"; text = text }

abbrev pub image_fields : String → String → CoreFields
image_fields data_ media_type = record zero_fields {
  kind = "image";
  image_data = data_;
  media_type = media_type;
}

abbrev pub tool_use_fields : String → String → String → CoreFields
tool_use_fields id name input = record zero_fields {
  kind = "tool_use";
  tool_use_id = id;
  tool_name = name;
  tool_input = input;
}

abbrev pub tool_result_fields : String → CoreFields
tool_result_fields id = record zero_fields { kind = "tool_result"; tool_use_id = id }

abbrev pub reasoning_fields : String → String → CoreFields
reasoning_fields text signature = record zero_fields {
  kind = "reasoning";
  reasoning_text = text;
  reasoning_signature = signature;
}

abbrev pub text_block : String → CoreContentBlock
text_block text = block (text_fields text) nil
