-- ===== src/Chat/Tests.antt =====
-- Chat Completions at concrete inputs.
use moon_bridge.Prelude.{
  String, ◌≡◌, refl, true, Option, none, some, List, [], ◌∷◌, string_comparable,
}
use moon_bridge.Format.Strip.{strip_prefix}
use moon_bridge.Chat.Types.{ToolCall, ChatStreamChunk}
use moon_bridge.Chat.Stream.{to_core_stream}
use moon_bridge.Chat.Stream.Ordered.{AreOrdered}
use moon_bridge.Chat.Stream.Opened.{to_core_stream-AreOrdered}
use moon_bridge.Chat.Request.{to_chat_message}
use moon_bridge.Chat.Response.{is_quote, choice_to_core_message}
use moon_bridge.Chat.RoundTrip.{said, choice_to_core_message-to_chat_message}

-- A stand-in for JSON: a mark in front of the text.
abbrev mark : String → String
mark s = String.◌∷◌ "\"" (String.◌∷◌ "\"" s)

abbrev unmark : String → Option String
unmark String.[] = none
unmark (String.◌∷◌ c String.[]) = none
unmark (String.◌∷◌ c (String.◌∷◌ d s)) = some s

mark_quoted : (s : String) → is_quote (mark s) ≡ true
unfolding strip_prefix
mark_quoted s = refl

choice_to_core_message-to_chat_message_example :
    choice_to_core_message unmark
      (to_chat_message mark (said "because" "hello" (("call", ("read", "{}")) ∷ [])))
    ≡ said "because" "hello" (("call", ("read", "{}")) ∷ [])
choice_to_core_message-to_chat_message_example =
    choice_to_core_message-to_chat_message mark unmark (λ s. refl) mark_quoted "because" "hello"
      (("call", ("read", "{}")) ∷ [])

abbrev call : String → String → String → ToolCall
call id name arguments = record {
  index = none;
  id = id;
  kind = "function";
  name = name;
  arguments = arguments;
}

abbrev chunk : String → List ToolCall → ChatStreamChunk
chunk finish_reason calls = record {
  model = "deepseek";
  choices =
      record {
        index = 0;
        delta = record {
          role = "assistant";
          content = "";
          tool_calls = calls;
          reasoning_content = "";
        };
        finish_reason = finish_reason;
      }
      ∷ [];
  usage = none;
}

abbrev chunks : List ChatStreamChunk
chunks =
    chunk "" (call "a" "read" "" ∷ [])
    ∷ chunk "" (call "" "" "{}" ∷ [])
    ∷ chunk "tool_calls" []
    ∷ []

to_core_stream-AreOrdered_example : AreOrdered [] (to_core_stream unmark chunks)
to_core_stream-AreOrdered_example = to_core_stream-AreOrdered unmark chunks
