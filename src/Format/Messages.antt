-- ===== src/Format/Messages.antt =====
-- Requests and responses of internal/format/types.go. Floating-point parameters are only passed on, as
-- JSON values; `Raw` and the maps of extensions are JSON too.
use moon_bridge.Prelude.{String, Bool, Option, List}
use moon_bridge.Prelude.Int.{ℤ}
use moon_bridge.Format.Json.{Json, Members}
use moon_bridge.Format.Blocks.{CoreContentBlock}

pub record CoreMessage : Type 0 where
  pub role : String
  pub content : List CoreContentBlock
  pub extensions : Members

-- A schema that is nil is none.
pub record CoreTool : Type 0 where
  pub name : String
  pub description : String
  pub input_schema : Option Members
  pub extensions : Members

pub record CoreToolChoice : Type 0 where
  pub mode : String
  pub name : String
  pub raw : String
  pub extensions : Members

pub record CoreThinkingConfig : Type 0 where
  pub kind : String
  pub budget_tokens : ℤ

pub record CoreOutputConfig : Type 0 where
  pub effort : String

pub record CoreCacheControl : Type 0 where
  pub enabled : Bool
  pub ttl_seconds : ℤ
  pub strategy : String

pub record CoreRequest : Type 0 where
  pub model : String
  pub messages : List CoreMessage
  pub system : List CoreContentBlock
  pub tools : List CoreTool
  pub tool_choice : Option CoreToolChoice
  pub temperature : Option Json
  pub top_p : Option Json
  pub max_tokens : ℤ
  pub top_k : Option ℤ
  pub stop_sequences : List String
  pub stream : Bool
  pub safety_settings : Members
  pub generation_config : Members
  pub thinking : Option CoreThinkingConfig
  pub output : Option CoreOutputConfig
  pub cache_control : Option CoreCacheControl
  pub metadata : Members
  pub extensions : Members

pub record CoreUsage : Type 0 where
  pub input_tokens : ℤ
  pub output_tokens : ℤ
  pub total_tokens : ℤ
  pub cached_input_tokens : ℤ

pub record CoreError : Type 0 where
  pub message : String
  pub kind : String
  pub code : String

pub record CoreResponse : Type 0 where
  pub id : String
  pub status : String
  pub model : String
  pub messages : List CoreMessage
  pub usage : CoreUsage
  pub error : Option CoreError
  pub stop_reason : String
  pub extensions : Members
