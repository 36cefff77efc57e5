-- ===== src/Chat/Stream.antt =====
-- internal/protocol/chat/adapter.go: the conversion of streams, `ToCoreStream`. The goroutine reads
-- one chunk at a time, so a run is the list of chunks, then the close of their channel.
-- `json.Unmarshal` of a text is a parameter, none where it fails.
pub mod Ordered
pub mod Opened
use moon_bridge.Prelude.{
  ℕ, suc, ◌+◌, ◌-◌, String, Option, none, some, List, [], ◌∷◌, ◌++◌, if◌then◌else◌, ◌==◌,
  nat_comparable, string_comparable,
}
use moon_bridge.Prelude.Int.{pos}
use moon_bridge.Prelude.GoMap.{GoMap, get, put}
use moon_bridge.Format.Blocks
use moon_bridge.Format.Messages.{CoreUsage}
use moon_bridge.Format.Events.{CoreStreamEvent, event, completed}
use moon_bridge.Chat.Types.{Usage, StreamChoice, ChatStreamChunk}
use moon_bridge.Chat.Choice.{ChoiceState, new_choice_state, choice_step}

-- `choices[sc.Index]`, or a new state.
abbrev pub state_at : ℕ → GoMap ℕ ChoiceState → ChoiceState
state_at index choices = elim (get index choices) [ none ↦ new_choice_state index | some s ↦ s ]

module _ (unquote : String → Option String) where
  -- The loop over the choices of a chunk.
  unfoldable pub choices_step :
      List StreamChoice → GoMap ℕ ChoiceState → GoMap ℕ ChoiceState × List CoreStreamEvent
  choices_step [] choices = (choices, [])
  choices_step (sc ∷ scs) choices =
      let (s, first) = choice_step unquote sc (state_at sc.index choices) in
      let (choices', rest) = choices_step scs (put sc.index s choices) in (choices', first ++ rest)

-- The usage of a chunk or of a response.
unfoldable pub usage_of : Usage → CoreUsage
usage_of u = record {
  input_tokens = u.prompt_tokens;
  output_tokens = u.completion_tokens;
  total_tokens = u.total_tokens;
  cached_input_tokens = elim u.cached_tokens [ none ↦ pos 0 | some n ↦ n ];
}

-- The variables of the goroutine; the number of an event is given when it is sent.
pub record StreamState : Type 0 where
  pub choices : GoMap ℕ ChoiceState
  pub final_usage : Option CoreUsage
  pub last_model : String

abbrev pub new_stream_state : StreamState
new_stream_state = record { choices = []; final_usage = none; last_model = "" }

-- `emit`, of one event after the other.
unfoldable pub numbered : ℕ → List CoreStreamEvent → List CoreStreamEvent
numbered seq_num [] = []
numbered seq_num (e ∷ es) = record e { seq_num = suc seq_num } ∷ numbered (suc seq_num) es

module _ (unquote : String → Option String) where
  -- A round of the loop over the chunks.
  unfoldable pub chunk_step : ChatStreamChunk → StreamState → StreamState × List CoreStreamEvent
  chunk_step chunk s =
      let (choices, sent) = choices_step unquote chunk.choices s.choices in
      (
        record {
          choices = choices;
          final_usage = elim chunk.usage [ none ↦ s.final_usage | some u ↦ some (usage_of u) ];
          last_model = if chunk.model == "" then s.last_model else chunk.model;
        },
        sent,
      )

  -- The events of a stream whose channel is closed after the chunks.
  unfoldable pub events_of : List ChatStreamChunk → StreamState → List CoreStreamEvent
  events_of [] s =
      record (event completed) { status = "completed"; model = s.last_model; usage = s.final_usage }
      ∷ []
  events_of (chunk ∷ chunks) s = let (s', sent) = chunk_step chunk s in sent ++ events_of chunks s'

  -- `ToCoreStream`
  unfoldable pub to_core_stream : List ChatStreamChunk → List CoreStreamEvent
  to_core_stream chunks = numbered 0 (events_of chunks new_stream_state)
