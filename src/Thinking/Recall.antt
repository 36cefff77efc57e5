-- ===== src/Thinking/Recall.antt =====
-- What is remembered is recalled, whatever steps lie before, and the bound always holds.
use text.Mathlib.TextEquality.{eq_iff}
use moon_bridge.Prelude.{
  ◌≤◌, ◌<◌, String, ◌≡◌, refl, ◌≢◌, inl, inr, true, false, not, ◌||◌, some, List, [], ◌∷◌, ◌==◌,
  string_comparable, length, is_empty, arith, Bool-cases,
}
use moon_bridge.Prelude.GoMap.{has}
use moon_bridge.Thinking.Block.{
  CoreContentBlock, has_thinking_payload, normalize_thinking_block, has_thinking_block,
  text_from_blocks,
}
use moon_bridge.Thinking.Records.{empty_store, insert_new}
use moon_bridge.Thinking.Records.Laws.{
  IsStored, is_in, insert_new-IsStored, prune_loop-IsStored, get-insert_prune,
}
use moon_bridge.Thinking.Stream.{StreamState}
use moon_bridge.Thinking.{
  State, new_state, prune_state, insert_all, remember_for_tool_calls, cached_for_tool_call,
  remember_for_assistant_text, remember_from_content, remember_stream_result,
  cached_for_assistant_text, prepend_cached_for_assistant_text,
}

-- Both maps are in step with their orders, and neither holds more than the limit.
pub record IsBounded (s : State) : Type 0 where
  pub tool_calls : IsStored s.by_tool_call
  pub texts : IsStored s.by_text
  pub few_tool_calls : length s.by_tool_call.order ≤ s.limit
  pub few_texts : length s.by_text.order ≤ s.limit

pub new_state-IsBounded : IsBounded new_state
unfolding has is_in
new_state-IsBounded =
    let empty : IsStored empty_store = record {
      is_map = tt;
      distinct = tt;
      keyed = λ k. refl;
      sized = refl;
    } in
    record {
      tool_calls = empty;
      texts = empty;
      few_tool_calls = omega arith;
      few_texts = omega arith;
    }

prune_state-IsBounded :
    (s : State) → IsStored s.by_tool_call → IsStored s.by_text → IsBounded (prune_state s)
unfolding prune_state
prune_state-IsBounded s v w =
    let (a, b) = prune_loop-IsStored s.limit s.by_tool_call.order s.by_tool_call.records v in
    let (c, d) = prune_loop-IsStored s.limit s.by_text.order s.by_text.records w in
    record { tool_calls = a; texts = c; few_tool_calls = b; few_texts = d }

insert_all-IsStored :
    (ids : List String) (b : CoreContentBlock) (s : _) → IsStored s → IsStored (insert_all ids b s)
unfolding insert_all
insert_all-IsStored [] b s v = v
insert_all-IsStored (id ∷ ids) b s v = elim (Bool-cases (id == "")) [
  | inl blank ↦ rw blank (insert_all-IsStored ids b s v)
  | inr named ↦
      rw named (insert_all-IsStored ids b (insert_new id b s) (insert_new-IsStored id b s v))
]

remember_for_tool_calls-IsBounded :
    (ids : List String) (b : CoreContentBlock) (s : State)
    → IsBounded s
    → IsBounded (remember_for_tool_calls ids b s)
unfolding remember_for_tool_calls
remember_for_tool_calls-IsBounded ids b s v =
    elim (Bool-cases (not (has_thinking_payload b) || is_empty ids)) [
      | inl skip ↦ rw skip v
      | inr go ↦ rw go (
          prune_state-IsBounded _
            (insert_all-IsStored ids (normalize_thinking_block b) s.by_tool_call v.tool_calls)
            v.texts)
    ]

-- The calls that change the state.
pub data Step : Type 0 where
  tool_calls : List String → CoreContentBlock → Step
  assistant_text : String → CoreContentBlock → Step
  content : List CoreContentBlock → Step
  stream_result : StreamState → String → Step

module _ (sha256_hex : String → String) where
  remember_for_assistant_text-IsBounded :
      (text : String) (b : CoreContentBlock) (s : State)
      → IsBounded s
      → IsBounded (remember_for_assistant_text sha256_hex text b s)
  unfolding remember_for_assistant_text
  remember_for_assistant_text-IsBounded text b s v =
      elim (Bool-cases (text == "" || not (has_thinking_payload b))) [
        | inl skip ↦ rw skip v
        | inr go ↦ rw go (
            prune_state-IsBounded _ v.tool_calls (
              insert_new-IsStored (sha256_hex text) (normalize_thinking_block b) s.by_text v.texts))
      ]

  unfoldable pub run_step : Step → State → State
  run_step (tool_calls ids b) s = remember_for_tool_calls ids b s
  run_step (assistant_text text b) s = remember_for_assistant_text sha256_hex text b s
  run_step (content bs) s = remember_from_content sha256_hex bs s
  run_step (stream_result stream text) s = remember_stream_result sha256_hex stream text s

  unfoldable pub run_steps : List Step → State → State
  run_steps [] s = s
  run_steps (x ∷ xs) s = run_steps xs (run_step x s)

  run_step-IsBounded : (x : Step) (s : State) → IsBounded s → IsBounded (run_step x s)
  unfolding run_step remember_from_content remember_stream_result
  run_step-IsBounded (tool_calls ids b) s v = remember_for_tool_calls-IsBounded ids b s v
  run_step-IsBounded (assistant_text text b) s v = remember_for_assistant_text-IsBounded text b s v
  run_step-IsBounded (content bs) s v =
      remember_for_assistant_text-IsBounded _ _ _ (remember_for_tool_calls-IsBounded _ _ s v)
  run_step-IsBounded (stream_result stream text) s v =
      elim (Bool-cases (not (has_thinking_payload stream.completed_thinking))) [
        | inl skip ↦ rw skip v
        | inr go ↦ rw go (elim (Bool-cases (not (is_empty stream.tool_call_ids))) [
          | inl calls ↦ rw calls (remember_for_tool_calls-IsBounded _ _ s v)
          | inr text_only ↦ rw text_only (remember_for_assistant_text-IsBounded text _ s v)
        ])
      ]

  -- Whatever is remembered, in whatever order, from a bounded state: the records of each of the
  -- two maps stay those of its order, each key once, and neither holds more than the limit.
  pub run_steps-IsBounded : (xs : List Step) (s : State) → IsBounded s → IsBounded (run_steps xs s)
  unfolding run_steps
  run_steps-IsBounded [] s v = v
  run_steps-IsBounded (x ∷ xs) s v =
      run_steps-IsBounded xs (run_step x s) (run_step-IsBounded x s v)

  -- In a bounded state with a limit above zero, a block with thinking that is remembered for a
  -- tool call with an identifier is what is then cached for it, normalised.
  pub cached-remember_for_tool_calls :
      (id : String) (b : CoreContentBlock) (s : State)
      → IsBounded s
      → 0 < s.limit
      → id ≢ ""
      → has_thinking_payload b ≡ true
      → cached_for_tool_call id (remember_for_tool_calls (id ∷ []) b s)
        ≡ some (normalize_thinking_block b)
  unfolding cached_for_tool_call remember_for_tool_calls insert_all prune_state
  cached-remember_for_tool_calls id b s v p ne pay =
      let named : (id == "") ≡ false = ground (arith, eq_iff id "") in
      rw named (
        rw pay (
          get-insert_prune s.limit id (normalize_thinking_block b) s.by_tool_call p v.tool_calls
            v.few_tool_calls))

  cached-remember_for_assistant_text :
      (text : String) (b : CoreContentBlock) (s : State)
      → IsBounded s
      → 0 < s.limit
      → text ≢ ""
      → has_thinking_payload b ≡ true
      → cached_for_assistant_text sha256_hex text (remember_for_assistant_text sha256_hex text b s)
        ≡ some (normalize_thinking_block b)
  unfolding cached_for_assistant_text remember_for_assistant_text prune_state
  cached-remember_for_assistant_text text b s v p ne pay =
      let named : (text == "") ≡ false = ground (arith, eq_iff text "") in
      rw named (
        rw pay (
          get-insert_prune s.limit (sha256_hex text) (normalize_thinking_block b) s.by_text p
            v.texts v.few_texts))

  -- In a bounded state with a limit above zero, a block with thinking that is remembered for the
  -- text of some blocks, which is not empty, is then put in front of them, normalised, if they
  -- have no thinking of their own.
  pub prepend-remember_for_assistant_text :
      (blocks : List CoreContentBlock) (b : CoreContentBlock) (s : State)
      → IsBounded s
      → 0 < s.limit
      → text_from_blocks blocks ≢ ""
      → has_thinking_block blocks ≡ false
      → has_thinking_payload b ≡ true
      → prepend_cached_for_assistant_text sha256_hex blocks
          (remember_for_assistant_text sha256_hex (text_from_blocks blocks) b s)
        ≡ normalize_thinking_block b ∷ blocks
  unfolding prepend_cached_for_assistant_text
  prepend-remember_for_assistant_text blocks b s v p ne bare pay = rw bare (
      rw
        (
          cached-remember_for_assistant_text (text_from_blocks blocks) b s v p ne pay,
          prepend_cached_for_assistant_text,
        )
        refl)
