-- ===== src/Chat/Request.antt =====
-- internal/protocol/chat/adapter.go: the conversion of requests, `FromCoreRequest` and what it uses. The hooks of the plugins
-- and `json.Marshal` of a text are parameters. A raw message that is nil is
-- the empty text.
use Prim.Native.String.{◌++◌ as append}
use moon_bridge.Prelude.{
  String, Bool, true, false, not, ◌&&◌, ◌||◌, Option, none, some, List, [], ◌∷◌, ◌++◌, map, ltb,
  if◌then◌else◌, ◌==◌, nat_comparable, string_comparable, is_empty,
}
use moon_bridge.Prelude.Int.{ℤ, pos, negsuc}
use moon_bridge.Format.Json.{Json, member, end}
use moon_bridge.Format.Blocks.{CoreContentBlock, CoreBlocks, fields, results}
use moon_bridge.Format.Messages.{CoreMessage, CoreTool, CoreToolChoice, CoreRequest}
use moon_bridge.Format.Strip.{strip_prefix}
use moon_bridge.Anthropic.Request.{RequestHooks, prepare}
use moon_bridge.Chat.Types.{
  ContentPart, ChatContent, nil_content, plain_content, parts_content, ToolCall, ChatMessage,
  ChatTool, ChatToolChoice, no_choice, raw_choice, made_choice, ChatRequest,
}

abbrev kind_of : CoreContentBlock → String
kind_of b = (fields b).kind

-- The texts of the blocks in a result, joined.
unfoldable pub result_text : CoreBlocks → String
result_text CoreBlocks.nil = ""
result_text (CoreBlocks.cons b bs) = append (fields b).text (result_text bs)

-- `toChatSystemContent`
unfoldable pub to_chat_system_content : List CoreContentBlock → String
to_chat_system_content [] = ""
to_chat_system_content (b ∷ bs) =
    let rest = to_chat_system_content bs in
    if kind_of b == "reasoning" then rest else append (fields b).text rest

-- The text of a block in a text-only message.
abbrev pub text_in : CoreContentBlock → String
text_in b = if kind_of b == "tool_result" then result_text (results b) else (fields b).text

-- `toChatContent` without images.
unfoldable pub joined_text : List CoreContentBlock → String
joined_text [] = ""
joined_text (b ∷ bs) = append (text_in b) (joined_text bs)

unfoldable pub has_image : List CoreContentBlock → Bool
has_image [] = false
has_image (b ∷ bs) = kind_of b == "image" || has_image bs

abbrev has_prefix : String → String → Bool
has_prefix prefix text = elim (strip_prefix prefix text) [ none ↦ false | some rest ↦ true ]

-- The address of an image.
unfoldable pub image_url_of : CoreContentBlock → String
image_url_of b =
    let data_ = (fields b).image_data in
    if has_prefix "http://" data_ || has_prefix "https://" data_ || has_prefix "data:" data_
    then data_
    else append "data:" (
        append (if (fields b).media_type == "" then "image/png" else (fields b).media_type)
          (append ";base64," data_))

abbrev text_part : String → ContentPart
text_part text = record { kind = "text"; text = text; image_url = none }

abbrev if_text : String → List ContentPart
if_text text = if text == "" then [] else text_part text ∷ []

-- The parts that a block becomes in a message with images.
unfoldable pub parts_of : CoreContentBlock → List ContentPart
parts_of b =
    let kind = kind_of b in
    if kind == "text" || kind == "input_text" || kind == "output_text"
    then text_part (fields b).text ∷ []
    else if kind == "image"
    then record { kind = "image_url"; text = ""; image_url = some (image_url_of b, "auto") } ∷ []
    else if kind == "tool_result"
    then if_text (result_text (results b))
    else if_text (fields b).text

unfoldable pub all_parts : List CoreContentBlock → List ContentPart
all_parts [] = []
all_parts (b ∷ bs) = parts_of b ++ all_parts bs

-- `toChatContent`
unfoldable pub to_chat_content : List CoreContentBlock → ChatContent
to_chat_content bs =
    if has_image bs then parts_content (all_parts bs) else plain_content (joined_text bs)

-- `mapRoleToChat`
unfoldable pub map_role_to_chat : String → String
map_role_to_chat role =
    if role == "assistant" || role == "user" || role == "tool" || role == "system"
    then role
    else "user"

-- A block that goes into the content of a message.
abbrev is_content : CoreContentBlock → Bool
is_content b =
    let kind = kind_of b in
    kind == "text"
    || kind == "image"
    || kind == "input_text"
    || kind == "output_text"
    || kind == "tool_result"
    || not (kind == "tool_use" || kind == "reasoning") && not ((fields b).text == "")

-- The three kinds of blocks that `toChatMessage` separates.
unfoldable pub content_blocks : List CoreContentBlock → List CoreContentBlock
content_blocks [] = []
content_blocks (b ∷ bs) = let rest = content_blocks bs in if is_content b then b ∷ rest else rest

unfoldable pub tool_use_blocks : List CoreContentBlock → List CoreContentBlock
tool_use_blocks [] = []
tool_use_blocks (b ∷ bs) =
    let rest = tool_use_blocks bs in if kind_of b == "tool_use" then b ∷ rest else rest

-- The last reasoning that is not empty, or what was there before.
unfoldable pub last_reasoning : String → List CoreContentBlock → String
last_reasoning text [] = text
last_reasoning text (b ∷ bs) =
    last_reasoning
      (if kind_of b == "reasoning" && not ((fields b).reasoning_text == "")
        then (fields b).reasoning_text
        else text)
      bs

-- The content, which is nil where it is empty beside tool calls.
abbrev pub content_beside : List CoreContentBlock → List CoreContentBlock → ChatContent
content_beside [] calls = nil_content
content_beside (b ∷ bs) [] = to_chat_content (b ∷ bs)
content_beside (b ∷ bs) (c ∷ cs) = elim (to_chat_content (b ∷ bs)) [
  | plain_content t ↦ if t == "" then nil_content else plain_content t
  | other ↦ other
]

unfoldable pub first_result : List CoreContentBlock → Option CoreContentBlock
first_result [] = none
first_result (b ∷ bs) = if kind_of b == "tool_result" then some b else first_result bs

module _ (quote : String → String) where
  abbrev pub to_tool_call : CoreContentBlock → ToolCall
  to_tool_call b = record {
    index = none;
    id = (fields b).tool_use_id;
    kind = "function";
    name = (fields b).tool_name;
    arguments = quote (fields b).tool_input;
  }

  -- `toChatMessage` before the results of tools.
  unfoldable pub plain_message : CoreMessage → ChatMessage
  plain_message m = record {
    role = map_role_to_chat m.role;
    content = content_beside (content_blocks m.content) (tool_use_blocks m.content);
    tool_calls = map to_tool_call (tool_use_blocks m.content);
    tool_call_id = "";
    reasoning_content = last_reasoning "" m.content;
  }

  -- `toChatMessage`
  unfoldable pub to_chat_message : CoreMessage → ChatMessage
  to_chat_message m =
      let result =
        if m.role == "tool" && is_empty (tool_use_blocks m.content)
        then first_result m.content
        else none in
      elim result [
        | none ↦ plain_message m
        | some b ↦ record (plain_message m) {
          tool_call_id = (fields b).tool_use_id;
          content = plain_content (result_text (results b));
        }
      ]

-- The choice of one function.
abbrev function_choice : String → Json
function_choice name = Json.object (
    member "type" (Json.text "function")
      (member "function" (Json.object (member "name" (Json.text name) end)) end))

-- `toChatToolChoice`
unfoldable pub to_chat_tool_choice : CoreToolChoice → Json
to_chat_tool_choice tc =
    if tc.mode == "none"
    then Json.text "none"
    else if tc.mode == "auto"
    then Json.text "auto"
    else if not (tc.name == "")
    then function_choice tc.name
    else if tc.mode == "required"
    then Json.text "required"
    else Json.text "auto"

abbrev choice_of : Option CoreToolChoice → ChatToolChoice
choice_of none = no_choice
choice_of (some tc) =
    if tc.raw == "" then made_choice (to_chat_tool_choice tc) else raw_choice tc.raw

abbrev positive : ℤ → Bool
positive (pos n) = ltb 0 n
positive (negsuc n) = false

abbrev pub to_chat_tool : CoreTool → ChatTool
to_chat_tool t = record {
  kind = "function";
  name = t.name;
  description = t.description;
  parameters = t.input_schema;
}

abbrev system_message : String → List ChatMessage
system_message text =
    if text == ""
    then []
    else record {
      role = "system";
      content = plain_content text;
      tool_calls = [];
      tool_call_id = "";
      reasoning_content = "";
    }
      ∷ []

module _ (quote : String → String) where
  -- Step 2 of `FromCoreRequest`; a limit of 0 is left out of the request.
  unfoldable pub build_chat_request : ℤ → CoreRequest → ChatRequest
  build_chat_request cfg_max_tokens req = record {
    model = req.model;
    messages =
        system_message (to_chat_system_content req.system)
        ++ map (to_chat_message quote) req.messages;
    temperature = req.temperature;
    top_p = req.top_p;
    max_tokens =
        if positive req.max_tokens
        then req.max_tokens
        else if positive cfg_max_tokens
        then cfg_max_tokens
        else pos 0;
    stop = req.stop_sequences;
    tools = map to_chat_tool req.tools;
    tool_choice = choice_of req.tool_choice;
  }

  -- `FromCoreRequest`; none is the error for a nil request.
  unfoldable pub from_core_request : RequestHooks → ℤ → Option CoreRequest → Option ChatRequest
  from_core_request hooks cfg_max_tokens none = none
  from_core_request hooks cfg_max_tokens (some req) =
      some (build_chat_request cfg_max_tokens (prepare hooks req))
