-- ===== src/Chat/RoundTrip.antt =====
-- What the assistant said survives the way to Chat Completions and back.
use text.Mathlib.TextLemmas.{append-nil}
use moon_bridge.Prelude.{
  String, ◌≡◌, refl, ◌∙◌, ap, inl, inr, Bool, true, false, Option, some, List, [], ◌∷◌, ◌++◌, map,
  if◌then◌else◌, ◌==◌, string_comparable, Bool-cases,
}
use moon_bridge.Format.Json.{end}
use moon_bridge.Format.Blocks
use moon_bridge.Format.Blocks.{
  CoreContentBlock, CoreBlocks, tool_use_fields, reasoning_fields, text_block,
}
use moon_bridge.Format.Messages.{CoreMessage}
use moon_bridge.Chat.Response.{
  is_quote, from_chat_content, unquote_arguments, from_tool_call, choice_to_core_message,
}
use moon_bridge.Chat.Request.{
  content_blocks, tool_use_blocks, last_reasoning, content_beside, to_chat_content, has_image,
  joined_text, to_tool_call, plain_message, to_chat_message,
}

-- A tool call: its identifier, its name and its input.
abbrev pub Call : Type 0
Call = String × (String × String)

abbrev pub call_block : Call → CoreContentBlock
call_block c = Blocks.block (tool_use_fields c.0 c.1.0 c.1.1) CoreBlocks.nil

abbrev pub reasoning_block : String → CoreContentBlock
reasoning_block text = Blocks.block (reasoning_fields text "") CoreBlocks.nil

abbrev pub unless_empty : String → CoreContentBlock → List CoreContentBlock
unless_empty text b = if text == "" then [] else b ∷ []

-- What an assistant says: reasoning, text, and calls of tools, of which any may be missing.
abbrev pub said : String → String → List Call → CoreMessage
said reasoning text calls = record {
  role = "assistant";
  content =
      unless_empty reasoning (reasoning_block reasoning)
      ++ unless_empty text (text_block text)
      ++ map call_block calls;
  extensions = end;
}

content_blocks-calls : (cs : List Call) → content_blocks (map call_block cs) ≡ []
unfolding content_blocks
content_blocks-calls [] = refl
content_blocks-calls (c ∷ cs) = content_blocks-calls cs

tool_use_blocks-calls : (cs : List Call) → tool_use_blocks (map call_block cs) ≡ map call_block cs
unfolding tool_use_blocks
tool_use_blocks-calls [] = refl
tool_use_blocks-calls (c ∷ cs) = λ i. call_block c ∷ tool_use_blocks-calls cs i

last_reasoning-calls :
    (text : String) (cs : List Call) → last_reasoning text (map call_block cs) ≡ text
unfolding last_reasoning
last_reasoning-calls text [] = refl
last_reasoning-calls text (c ∷ cs) = last_reasoning-calls text cs

-- What an assistant says, by what is missing.
abbrev shape : Bool → Bool → String → String → List Call → List CoreContentBlock
shape b1 b2 reasoning text cs =
    (if b1 then [] else reasoning_block reasoning ∷ [])
    ++ (if b2 then [] else text_block text ∷ [])
    ++ map call_block cs

last_reasoning-shape :
    (b1 b2 : Bool) (reasoning text : String) (cs : List Call)
    → (reasoning == "") ≡ b1
    → last_reasoning "" (shape b1 b2 reasoning text cs) ≡ (if b1 then "" else reasoning)
unfolding last_reasoning
last_reasoning-shape true true reasoning text cs e = last_reasoning-calls "" cs
last_reasoning-shape true false reasoning text cs e = last_reasoning-calls "" cs
last_reasoning-shape false true reasoning text cs e =
    rw (e, last_reasoning) (last_reasoning-calls reasoning cs)
last_reasoning-shape false false reasoning text cs e =
    rw (e, last_reasoning) (last_reasoning-calls reasoning cs)

content_blocks-shape :
    (b1 b2 : Bool) (reasoning text : String) (cs : List Call)
    → content_blocks (shape b1 b2 reasoning text cs) ≡ (if b2 then [] else text_block text ∷ [])
unfolding content_blocks
content_blocks-shape true true reasoning text cs = content_blocks-calls cs
content_blocks-shape true false reasoning text cs =
    ap (λ bs. text_block text ∷ bs) (content_blocks-calls cs)
content_blocks-shape false true reasoning text cs = content_blocks-calls cs
content_blocks-shape false false reasoning text cs =
    ap (λ bs. text_block text ∷ bs) (content_blocks-calls cs)

tool_use_blocks-shape :
    (b1 b2 : Bool) (reasoning text : String) (cs : List Call)
    → tool_use_blocks (shape b1 b2 reasoning text cs) ≡ map call_block cs
unfolding tool_use_blocks
tool_use_blocks-shape true true reasoning text cs = tool_use_blocks-calls cs
tool_use_blocks-shape true false reasoning text cs = tool_use_blocks-calls cs
tool_use_blocks-shape false true reasoning text cs = tool_use_blocks-calls cs
tool_use_blocks-shape false false reasoning text cs = tool_use_blocks-calls cs

-- A text that is not empty comes back from the content, with calls beside it or without.
text_comes_back :
    (t : String) (bs : List CoreContentBlock)
    → (t == "") ≡ false
    → from_chat_content (content_beside (text_block t ∷ []) bs) ≡ text_block t ∷ []
unfolding from_chat_content to_chat_content has_image joined_text
text_comes_back t [] h = rw (append-nil t) (rw h refl)
text_comes_back t (b ∷ bs) h = rw (append-nil t) (rw h (rw h refl))

content_comes_back :
    (t : String) (bs : List CoreContentBlock)
    → from_chat_content (content_beside (unless_empty t (text_block t)) bs)
      ≡ unless_empty t (text_block t)
unfolding from_chat_content
content_comes_back t bs = elim (Bool-cases (t == "")) [
  | inl nothing ↦ rw nothing refl
  | inr something ↦ rw something (text_comes_back t bs something)
]

reasoning_comes_back :
    (t : String)
    → unless_empty (if t == "" then "" else t) (reasoning_block (if t == "" then "" else t))
      ≡ unless_empty t (reasoning_block t)
reasoning_comes_back t = elim (Bool-cases (t == "")) [
  | inl nothing ↦ rw nothing refl
  | inr something ↦ rw something (rw something refl)
]

module _ (quote : String → String) (unquote : String → Option String)
    (reads : (s : String) → unquote (quote s) ≡ some s)
    (quoted : (s : String) → is_quote (quote s) ≡ true) where
  call_comes_back :
      (c : Call) → from_tool_call unquote (to_tool_call quote (call_block c)) ≡ call_block c
  unfolding unquote_arguments
  call_comes_back c = rw (quoted c.1.1) (rw (reads c.1.1) refl)

  calls_come_back :
      (cs : List Call)
      → map (from_tool_call unquote) (map (to_tool_call quote) (map call_block cs))
        ≡ map call_block cs
  calls_come_back [] = refl
  calls_come_back (c ∷ cs) = λ i. call_comes_back c i ∷ calls_come_back cs i

  -- What an assistant says, reasoning, then text, then calls of tools, of which any may be
  -- missing, survives the conversion to Chat Completions and back, if JSON reads back the texts
  -- that it quotes, and a quoted text begins with a quote and has a second character.
  pub choice_to_core_message-to_chat_message :
      (reasoning text : String) (cs : List Call)
      → choice_to_core_message unquote (to_chat_message quote (said reasoning text cs))
        ≡ said reasoning text cs
  unfolding choice_to_core_message to_chat_message plain_message
  choice_to_core_message-to_chat_message reasoning text cs =
      let b1 = reasoning == "" in
      let b2 = text == "" in
      let calls = tool_use_blocks-shape b1 b2 reasoning text cs in
      λ i. record (said reasoning text cs) {
        content =
            (ap (λ t. unless_empty t (reasoning_block t))
                  (last_reasoning-shape b1 b2 reasoning text cs refl)
                ∙ reasoning_comes_back reasoning)
              i
            ++ ((λ j.
                    from_chat_content
                      (content_beside (content_blocks-shape b1 b2 reasoning text cs j) (calls j)))
                  ∙ content_comes_back text (map call_block cs))
                i
            ++ (ap (λ bs. map (from_tool_call unquote) (map (to_tool_call quote) bs)) calls
                  ∙ calls_come_back cs)
                i;
      }
