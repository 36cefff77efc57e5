-- ===== src/Chat/Types.antt =====
-- internal/protocol/chat/types.go: the data of the Chat Completions API. Raw JSON is a text.
use moon_bridge.Prelude.{ℕ, String, Option, List}
use moon_bridge.Prelude.Int.{ℤ}
use moon_bridge.Format.Json.{Json, Members}

-- `ImageURL` is the address with its detail.
pub record ContentPart : Type 0 where
  pub kind : String
  pub text : String
  pub image_url : Option (String × String)

-- What the `any` of a content holds: nil, a text, parts, or decoded JSON.
pub data ChatContent : Type 0 where
  nil_content : ChatContent
  plain_content : String → ChatContent
  parts_content : List ContentPart → ChatContent
  decoded_content : Json → ChatContent

-- `ToolCall` with its `ToolCallFunc`.
pub record ToolCall : Type 0 where
  pub index : Option ℤ
  pub id : String
  pub kind : String
  pub name : String
  pub arguments : String

pub record ChatMessage : Type 0 where
  pub role : String
  pub content : ChatContent
  pub tool_calls : List ToolCall
  pub tool_call_id : String
  pub reasoning_content : String

-- `ChatTool` with its `FunctionDef`.
pub record ChatTool : Type 0 where
  pub kind : String
  pub name : String
  pub description : String
  pub parameters : Option Members

-- The choice of a tool: nil, raw JSON from the client, or JSON that is made here.
pub data ChatToolChoice : Type 0 where
  no_choice : ChatToolChoice
  raw_choice : String → ChatToolChoice
  made_choice : Json → ChatToolChoice

pub record ChatRequest : Type 0 where
  pub model : String
  pub messages : List ChatMessage
  pub temperature : Option Json
  pub top_p : Option Json
  pub max_tokens : ℤ
  pub stop : List String
  pub tools : List ChatTool
  pub tool_choice : ChatToolChoice

-- `Usage`, with the cached tokens of `PromptTokensDetails`.
pub record Usage : Type 0 where
  pub prompt_tokens : ℤ
  pub completion_tokens : ℤ
  pub total_tokens : ℤ
  pub cached_tokens : Option ℤ

pub record Choice : Type 0 where
  pub message : ChatMessage
  pub finish_reason : String

pub record ChatResponse : Type 0 where
  pub id : String
  pub choices : List Choice
  pub usage : Option Usage

pub record Delta : Type 0 where
  pub role : String
  pub content : String
  pub tool_calls : List ToolCall
  pub reasoning_content : String

pub record StreamChoice : Type 0 where
  pub index : ℕ
  pub delta : Delta
  pub finish_reason : String

pub record ChatStreamChunk : Type 0 where
  pub model : String
  pub choices : List StreamChoice
  pub usage : Option Usage
