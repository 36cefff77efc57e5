-- ===== src/Thinking/Tests.antt =====
-- The thinking state at concrete inputs.
use text.Mathlib.TextEquality.{eq_iff}
use moon_bridge.Prelude.{
  ℕ, String, ◌≡◌, refl, sym, ◌∙◌, ◌≢◌, false, some, List, [], ◌∷◌, string_comparable, arith,
}
use moon_bridge.Thinking.Block.{
  CoreContentBlock, zero_block, reasoning, has_thinking_block, text_from_blocks,
  normalize_thinking_block,
}
use moon_bridge.Thinking.Stream.{StreamDelta, new_stream_state, start, stop}
use moon_bridge.Thinking.Stream.Deltas.{
  deltas, gathered, is_thinking, is_signature, thinking_of, signature_of, stop-start,
}
use moon_bridge.Thinking.{
  new_state, remember_for_tool_calls, cached_for_tool_call, remember_for_assistant_text,
  prepend_cached_for_assistant_text,
}
use moon_bridge.Thinking.Recall.{
  IsBounded, new_state-IsBounded, tool_calls, content, run_steps, run_steps-IsBounded,
  cached-remember_for_tool_calls, prepend-remember_for_assistant_text,
}

-- A stand-in for the hash, which the state only compares.
abbrev no_hash : String → String
no_hash text = text

abbrev thought : CoreContentBlock
thought = reasoning "because" ""

abbrev said : CoreContentBlock
said = record zero_block { kind = "text"; text = "hello" }

run_steps-IsBounded_example : IsBounded (
    run_steps no_hash
      (tool_calls ("a" ∷ "" ∷ "b" ∷ []) thought ∷ content (thought ∷ said ∷ []) ∷ [])
      new_state)
run_steps-IsBounded_example =
    run_steps-IsBounded no_hash
      (tool_calls ("a" ∷ "" ∷ "b" ∷ []) thought ∷ content (thought ∷ said ∷ []) ∷ []) new_state
      new_state-IsBounded

id_named : ◌≢◌ {A = String} "call" ""
id_named e = ground (arith, eq_iff "call" "")

cached-remember_for_tool_calls_example :
    cached_for_tool_call "call" (remember_for_tool_calls ("call" ∷ []) thought new_state)
    ≡ some (normalize_thinking_block thought)
cached-remember_for_tool_calls_example =
    cached-remember_for_tool_calls no_hash "call" thought new_state new_state-IsBounded
      (omega arith) id_named refl

said_text : text_from_blocks (said ∷ []) ≡ "hello"
unfolding text_from_blocks
said_text = refl

text_there : text_from_blocks (said ∷ []) ≢ ""
text_there e = ground (arith, eq_iff "hello" "", sym said_text ∙ e)

no_thinking : has_thinking_block (said ∷ []) ≡ false
unfolding has_thinking_block
no_thinking = refl

prepend-remember_for_assistant_text_example :
    prepend_cached_for_assistant_text no_hash
      (said ∷ [])
      (remember_for_assistant_text no_hash (text_from_blocks (said ∷ [])) thought new_state)
    ≡ normalize_thinking_block thought ∷ said ∷ []
prepend-remember_for_assistant_text_example =
    prepend-remember_for_assistant_text no_hash (said ∷ []) thought new_state new_state-IsBounded
      (omega arith) text_there no_thinking refl

abbrev piece : String → String → StreamDelta
piece kind text = record { kind = kind; text = text; thinking = ""; signature = "" }

abbrev pieces : List (ℕ × StreamDelta)
pieces =
    (0, piece "thinking_delta" "be")
    ∷ (1, piece "thinking_delta" "no")
    ∷ (0, piece "reasoning_content_delta" "cause")
    ∷ (0, piece "signature_delta" "s")
    ∷ []

gathered-pieces : gathered is_thinking thinking_of 0 pieces "" ≡ "because"
unfolding gathered
gathered-pieces = refl

stop-start_example :
    (stop 0 (deltas pieces (start 0 (reasoning "" "") new_stream_state).0)).0.completed_thinking
    ≡ reasoning
        (gathered is_thinking thinking_of 0 pieces "")
        (gathered is_signature signature_of 0 pieces "")
stop-start_example = stop-start 0 (reasoning "" "") pieces new_stream_state refl
