-- ===== src/Chat/Response.antt =====
-- internal/protocol/chat/adapter.go: the conversion of responses, `ToCoreResponse` and what it uses.
-- `json.Unmarshal` of a text is a parameter, none where it fails.
use moon_bridge.Prelude.{
  String, Bool, true, false, Option, none, some, List, [], ◌∷◌, ◌++◌, map, if◌then◌else◌, ◌==◌,
  nat_comparable, string_comparable,
}
use moon_bridge.Prelude.Int.{pos}
use moon_bridge.Format.Json.{Json, Jsons, Members, lookup, text_of, end}
use moon_bridge.Format.Blocks
use moon_bridge.Format.Blocks.{
  CoreContentBlock, CoreBlocks, fields, results, zero_fields, text_fields, image_fields,
  tool_use_fields, reasoning_fields, text_block,
}
use moon_bridge.Format.Messages.{CoreMessage, CoreResponse, CoreUsage}
use moon_bridge.Format.Strip.{strip_prefix}
use moon_bridge.Chat.Types.{
  ChatContent, plain_content, decoded_content, ToolCall, ChatMessage, Choice, ChatResponse,
}
use moon_bridge.Chat.Choice.{map_finish_reason}
use moon_bridge.Chat.Stream.{usage_of}

-- `fromContentPartMap`
unfoldable pub from_content_part_map : Members → CoreContentBlock
from_content_part_map m =
    let kind = text_of (lookup "type" m) in
    if kind == "image_url"
    then elim (lookup "image_url" m) [
      | some (Json.object url) ↦
          Blocks.block (image_fields (text_of (lookup "url" url)) "") CoreBlocks.nil
      | some Json.nil_object ↦ Blocks.block (image_fields "" "") CoreBlocks.nil
      | _ ↦ text_block ""
    ]
    else text_block (text_of (lookup "text" m))

unfoldable pub from_parts : Jsons → List CoreContentBlock
from_parts Jsons.nil = []
from_parts (Jsons.cons v vs) =
    let rest = from_parts vs in
    elim v [
      | Json.object m ↦ from_content_part_map m ∷ rest
      | Json.nil_object ↦ text_block "" ∷ rest
      | _ ↦ rest
    ]

-- `fromChatContent`
unfoldable pub from_chat_content : ChatContent → List CoreContentBlock
from_chat_content (plain_content t) = if t == "" then [] else text_block t ∷ []
from_chat_content (decoded_content (Json.array vs)) = from_parts vs
from_chat_content _ = []

abbrev pub is_quote : String → Bool
is_quote s = elim (strip_prefix "\"" s) [
  | none ↦ false
  | some String.[] ↦ false
  | some (String.◌∷◌ c t) ↦ true
]

module _ (unquote : String → Option String) where
  -- `unquoteArguments`
  unfoldable pub unquote_arguments : String → String
  unquote_arguments raw =
      if is_quote raw then elim (unquote raw) [ none ↦ raw | some s ↦ s ] else raw

  abbrev pub from_tool_call : ToolCall → CoreContentBlock
  from_tool_call tc =
      Blocks.block (tool_use_fields tc.id tc.name (unquote_arguments tc.arguments)) CoreBlocks.nil

  -- `choiceToCoreMessage`
  unfoldable pub choice_to_core_message : ChatMessage → CoreMessage
  choice_to_core_message m = record {
    role = "assistant";
    content =
        (if m.reasoning_content == ""
          then []
          else Blocks.block (reasoning_fields m.reasoning_content "") CoreBlocks.nil ∷ [])
        ++ from_chat_content m.content
        ++ map from_tool_call m.tool_calls;
    extensions = end;
  }

abbrev first_reason : List Choice → String
first_reason [] = ""
first_reason (c ∷ cs) = c.finish_reason

abbrev no_usage : CoreUsage
no_usage = record {
  input_tokens = pos 0;
  output_tokens = pos 0;
  total_tokens = pos 0;
  cached_input_tokens = pos 0;
}

module _ (unquote : String → Option String) where
  -- `ToCoreResponse`
  unfoldable pub to_core_response : ChatResponse → CoreResponse
  to_core_response r = record {
    id = r.id;
    status =
        if first_reason r.choices == "length"
        then "incomplete"
        else if first_reason r.choices == "content_filter"
        then "failed"
        else "completed";
    model = "";
    messages = map (λ (c : Choice). choice_to_core_message unquote c.message) r.choices;
    usage = elim r.usage [ none ↦ no_usage | some u ↦ usage_of u ];
    error = none;
    stop_reason = map_finish_reason (first_reason r.choices);
    extensions = end;
  }
