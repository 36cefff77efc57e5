-- ===== src/Anthropic/Types.antt =====
-- internal/protocol/anthropic/types.go: the data of the Messages API. Raw JSON is a text; floating-point
-- parameters are only passed on, as JSON values.
use moon_bridge.Prelude.{ℕ, String, Bool, Option, none, List}
use moon_bridge.Prelude.Int.{ℤ}
use moon_bridge.Format.Json.{Json, Members}

pub record CacheControl : Type 0 where
  pub kind : String
  pub ttl : String

pub record ImageSource : Type 0 where
  pub kind : String
  pub url : String
  pub media_type : String
  pub data_ : String

-- The fields of a content block but for its `Content`.
pub record BlockFields : Type 0 where
  pub kind : String
  pub text : String
  pub thinking : String
  pub signature : String
  pub source : Option ImageSource
  pub id : String
  pub name : String
  pub input : String
  pub tool_use_id : String
  pub cache_control : Option CacheControl

mutual
  -- `ContentBlock`: its fields and its `Content`.
  pub data ContentBlock : Type 0 where
    block : BlockFields → Content → ContentBlock

  -- What the `any` of `Content` holds: nil, a text, blocks, or other JSON.
  pub data Content : Type 0 where
    no_content : Content
    text_content : String → Content
    blocks_content : ContentBlocks → Content
    json_content : Json → Content

  pub data ContentBlocks : Type 0 where
    nil : ContentBlocks
    cons : ContentBlock → ContentBlocks → ContentBlocks

abbrev pub fields : ContentBlock → BlockFields
fields (block f c) = f

abbrev pub content_of : ContentBlock → Content
content_of (block f c) = c

abbrev pub zero_fields : BlockFields
zero_fields = record {
  kind = "";
  text = "";
  thinking = "";
  signature = "";
  source = none;
  id = "";
  name = "";
  input = "";
  tool_use_id = "";
  cache_control = none;
}

pub record Message : Type 0 where
  pub role : String
  pub content : List ContentBlock

pub record Tool : Type 0 where
  pub name : String
  pub kind : String
  pub description : String
  pub input_schema : Option Members
  pub max_uses : ℤ
  pub cache_control : Option CacheControl

pub record ToolChoice : Type 0 where
  pub kind : String
  pub name : String

pub record ThinkingConfig : Type 0 where
  pub kind : String
  pub budget_tokens : ℤ

pub record OutputConfig : Type 0 where
  pub effort : String

pub record MessageRequest : Type 0 where
  pub model : String
  pub max_tokens : ℤ
  pub system : List ContentBlock
  pub messages : List Message
  pub tools : List Tool
  pub tool_choice : Option ToolChoice
  pub temperature : Option Json
  pub top_p : Option Json
  pub top_k : Option ℤ
  pub stop_sequences : List String
  pub metadata : Members
  pub stream : Bool
  pub cache_control : Option CacheControl
  pub thinking : Option ThinkingConfig
  pub output_config : Option OutputConfig

-- `CacheCreation`, the two counts, is not read.
pub record Usage : Type 0 where
  pub input_tokens : ℤ
  pub output_tokens : ℤ
  pub cache_creation_input_tokens : ℤ
  pub cache_read_input_tokens : ℤ

pub record MessageResponse : Type 0 where
  pub id : String
  pub kind : String
  pub role : String
  pub model : String
  pub content : List ContentBlock
  pub stop_reason : String
  pub stop_sequence : String
  pub usage : Usage

pub record StreamDelta : Type 0 where
  pub kind : String
  pub text : String
  pub thinking : String
  pub signature : String
  pub partial_json : String
  pub stop_reason : String

pub record ErrorObject : Type 0 where
  pub kind : String
  pub message : String

pub record StreamEvent : Type 0 where
  pub kind : String
  pub message : Option MessageResponse
  pub index : ℕ
  pub content_block : Option ContentBlock
  pub delta : StreamDelta
  pub usage : Option Usage
  pub error : Option ErrorObject
