-- ===== src/Chat/Stream/Opened.antt =====
-- The arguments of a call are sent only after the call was announced.
use moon_bridge.Prelude.{
  ℕ, zero, suc, ◌+◌, ◌-◌, String, ◌≡◌, refl, ◌∙◌, ap, inl, inr, true, not, ◌&&◌, ◌||◌, Option, none,
  some, List, [], ◌∷◌, ◌==◌, nat_comparable, string_comparable, arith, Bool-cases, Option-cases,
  ==_refl,
}
use moon_bridge.Prelude.GoMap.{GoMap, get, put, get-put}
use moon_bridge.Format.Events.{CoreStreamEvent}
use moon_bridge.Chat.Types.{ToolCall, Delta, StreamChoice, ChatStreamChunk}
use moon_bridge.Chat.Choice.{
  ChoiceState, begin_choice, enter_reasoning, send_reasoning, reasoning_piece, leave_reasoning,
  send_content, call_pos, flags_of, call_flag, with_maps, take_slot, start_call, piece_of,
  send_arguments, send_call, send_calls, close_calls, finish_choice, choice_step,
}
use moon_bridge.Chat.Stream.{
  state_at, choices_step, StreamState, new_stream_state, chunk_step, events_of, numbered,
  to_core_stream,
}
use moon_bridge.Chat.Stream.Ordered.{
  is_arguments, opens, opened, opened_in, AreOrdered, after, after-append, AreOrdered-append,
  or_true, opened-after, IsKnown, Keeps, IsSafe-▹, IsSafe-if, IsSafe-plain, IsSafe-ordered,
}

module _ (ci : ℕ) where
  begin_choice_safe : (d : Delta) → Keeps ci (begin_choice ci d)
  unfolding begin_choice
  begin_choice_safe d s sent k =
      IsSafe-if ci sent (not s.started && d.role == "assistant") _ _
        (IsSafe-if ci sent (d.reasoning_content == "") _ _
          (IsSafe-plain ci sent s _ _ k refl (refl, tt))
          (IsSafe-plain ci sent s _ _ k refl (refl, tt)))
        (IsSafe-plain ci sent s _ _ k refl tt)

  enter_reasoning_safe : Keeps ci (enter_reasoning ci)
  unfolding enter_reasoning
  enter_reasoning_safe s sent k =
      IsSafe-if ci sent s.has_reasoning _ _ (IsSafe-plain ci sent s _ _ k refl tt)
        (IsSafe-plain ci sent s _ _ k refl (refl, (refl, tt)))

  send_reasoning_safe : (d : Delta) → Keeps ci (send_reasoning ci d)
  unfolding send_reasoning
  send_reasoning_safe d s sent k =
      IsSafe-if ci sent (d.reasoning_content == "") _ _ (IsSafe-plain ci sent s _ _ k refl tt) (
        IsSafe-▹ ci sent (enter_reasoning ci s) (reasoning_piece ci d)
          (enter_reasoning_safe s sent k)
          (λ s' sent' k'. IsSafe-plain ci sent' s' _ _ k' refl (refl, tt)))

  leave_reasoning_safe : (d : Delta) → Keeps ci (leave_reasoning ci d)
  unfolding leave_reasoning
  leave_reasoning_safe d s sent k =
      IsSafe-if ci sent (not (d.content == "") && s.has_reasoning) _ _
        (IsSafe-plain ci sent s _ _ k refl (refl, (refl, tt)))
        (IsSafe-plain ci sent s _ _ k refl tt)

  send_content_safe : (d : Delta) → Keeps ci (send_content ci d)
  unfolding send_content
  send_content_safe d s sent k =
      IsSafe-if ci sent (d.content == "") _ _ (IsSafe-plain ci sent s _ _ k refl tt)
        (IsSafe-plain ci sent s _ _ k refl (refl, tt))

  IsKnown-with_maps :
      (s : ChoiceState) (sent : List CoreStreamEvent)
      → IsKnown ci s sent
      → IsKnown ci (with_maps s) sent
  unfolding get
  IsKnown-with_maps s sent k i flag = elim (Option-cases s.call_started) [
    | inl nil_map ↦ k i (ground (arith, nil_map, flag))
    | inr (m, made) ↦ k i (ground (arith, made, flag))
  ]

  IsKnown-take_slot :
      (pos : ℕ) (s : ChoiceState) (sent : List CoreStreamEvent)
      → IsKnown ci s sent
      → IsKnown ci (take_slot pos s).0 sent
  unfolding take_slot
  IsKnown-take_slot pos s sent k i flag = k i (ground (arith, flag))

  -- The call that is started is announced by the event.
  start_call_safe : (slot : ℕ) (tc : ToolCall) → Keeps ci (start_call ci slot tc)
  unfolding start_call
  start_call_safe slot tc s sent k =
      IsSafe-if ci sent (not (call_flag s slot) && (not (tc.id == "") || not (tc.name == ""))) _ _
        (record {
          ordered = (refl, tt);
          known = λ i flag. elim (Bool-cases (slot == i)) [
            | inl here ↦ rw (==_refl ci) (rw here refl)
            | inr there ↦
                or_true _
                  (k i (ground (arith, flag, there, get-put slot i true (flags_of s.call_started))))
          ];
        })
        (IsSafe-plain ci sent s _ _ k refl tt)

  close_calls_ordered :
      (count idx : ℕ) (s : ChoiceState) (sent : List CoreStreamEvent)
      → IsKnown ci s sent
      → AreOrdered sent (close_calls ci count idx s)
  unfolding close_calls
  close_calls_ordered zero idx s sent k = tt
  close_calls_ordered (suc count) idx s sent k = elim (Bool-cases (call_flag s idx)) [
    | inl begun ↦
        rw begun (k idx begun, (refl, close_calls_ordered count (suc idx) s _ (λ i flag. k i flag)))
    | inr idle ↦ rw idle (close_calls_ordered count (suc idx) s sent k)
  ]

  finish_choice_safe : (finish_reason : String) → Keeps ci (finish_choice ci finish_reason)
  unfolding finish_choice
  finish_choice_safe finish_reason s sent k =
      let closed : (e : CoreStreamEvent)
          → AreOrdered (e ∷ sent)
              (close_calls ci (s.tool_call_idx - (s.block_index + 1)) (s.block_index + 1) s) =
        λ e. close_calls_ordered _ _ s (e ∷ sent) (λ i flag. or_true _ (k i flag)) in
      IsSafe-if ci sent (finish_reason == "") _ _ (IsSafe-plain ci sent s _ _ k refl tt) (
        IsSafe-if ci sent s.has_reasoning _ _ (IsSafe-ordered ci sent s _ _ k refl (refl, closed _))
          (IsSafe-ordered ci sent s _ _ k refl (refl, closed _)))

  module _ (unquote : String → Option String) where
    send_arguments_safe : (slot : ℕ) (tc : ToolCall) → Keeps ci (send_arguments unquote ci slot tc)
    unfolding send_arguments
    send_arguments_safe slot tc s sent k = elim (Bool-cases (call_flag s slot)) [
      | inl begun ↦ rw begun (
          IsSafe-if ci sent
            (tc.arguments == "" || piece_of (unquote tc.arguments) tc.arguments == "") _ _
            (IsSafe-plain ci sent s _ _ k refl tt)
            (IsSafe-ordered ci sent s _ _ k refl (k slot begun, tt)))
      | inr idle ↦ rw idle (IsSafe-plain ci sent s _ _ k refl tt)
    ]

    send_call_safe : (tool_pos : ℕ) (tc : ToolCall) → Keeps ci (send_call unquote ci tool_pos tc)
    unfolding send_call
    send_call_safe tool_pos tc s sent k =
        IsSafe-▹ ci sent (start_call ci _ tc _) (send_arguments unquote ci _ tc)
          (start_call_safe _ tc _ sent (
            IsKnown-take_slot (call_pos tool_pos tc.index) (with_maps s) sent
              (IsKnown-with_maps s sent k)))
          (send_arguments_safe _ tc)

    send_calls_safe :
        (tool_pos : ℕ) (tcs : List ToolCall) → Keeps ci (send_calls unquote ci tool_pos tcs)
    unfolding send_calls
    send_calls_safe tool_pos [] s sent k = IsSafe-plain ci sent s _ _ k refl tt
    send_calls_safe tool_pos (tc ∷ tcs) s sent k =
        IsSafe-▹ ci sent (send_call unquote ci tool_pos tc s)
          (send_calls unquote ci (suc tool_pos) tcs) (send_call_safe tool_pos tc s sent k)
          (send_calls_safe (suc tool_pos) tcs)

-- The states of all choices are known.
abbrev AreKnown : GoMap ℕ ChoiceState → List CoreStreamEvent → Type 0
AreKnown choices sent = (ci : ℕ) → IsKnown ci (state_at ci choices) sent

module _ (unquote : String → Option String) where
  choice_step_safe : (sc : StreamChoice) → Keeps sc.index (choice_step unquote sc)
  unfolding choice_step
  choice_step_safe sc s sent k =
      let ci = sc.index in
      let d = sc.delta in
      let p1 = begin_choice_safe ci d s sent k in
      let p2 =
        IsSafe-▹ ci sent (begin_choice ci d s) (send_reasoning ci d) p1
          (send_reasoning_safe ci d) in
      let p3 = IsSafe-▹ ci sent _ (leave_reasoning ci d) p2 (leave_reasoning_safe ci d) in
      let p4 = IsSafe-▹ ci sent _ (send_content ci d) p3 (send_content_safe ci d) in
      let p5 =
        IsSafe-▹ ci sent _ (send_calls unquote ci 0 d.tool_calls) p4
          (send_calls_safe ci unquote 0 d.tool_calls) in
      IsSafe-▹ ci sent _ (finish_choice ci sc.finish_reason) p5
        (finish_choice_safe ci sc.finish_reason)

  AreKnown-put :
      (index : ℕ) (s : ChoiceState) (choices : GoMap ℕ ChoiceState) (sent : List CoreStreamEvent)
      → IsKnown index s sent
      → AreKnown choices sent
      → AreKnown (put index s choices) sent
  AreKnown-put index s choices sent here k ci i flag = elim (Bool-cases (index == ci)) [
    | inl same ↦
        let at : index ≡ ci = (nat_comparable.equal_iff index ci).0 same in
        rw⁻¹ at (here i (ground (arith, flag, same, get-put index ci s choices)))
    | inr other ↦ k ci i (ground (arith, flag, other, get-put index ci s choices))
  ]

  choices_step_safe :
      (scs : List StreamChoice) (choices : GoMap ℕ ChoiceState) (sent : List CoreStreamEvent)
      → AreKnown choices sent
      → AreOrdered sent (choices_step unquote scs choices).1
        × AreKnown
            (choices_step unquote scs choices).0
            (after sent (choices_step unquote scs choices).1)
  unfolding choices_step
  choices_step_safe [] choices sent k = (tt, k)
  choices_step_safe (sc ∷ scs) choices sent k =
      let first = choice_step unquote sc (state_at sc.index choices) in
      let safe = choice_step_safe sc (state_at sc.index choices) sent (k sc.index) in
      let (ordered, known) =
        choices_step_safe scs (put sc.index first.0 choices) (after sent first.1) (
          AreKnown-put sc.index first.0 choices (after sent first.1) safe.known
            (λ ci i flag. opened-after ci i sent first.1 (k ci i flag))) in
      (
        AreOrdered-append sent first.1 _ safe.ordered ordered,
        λ ci i flag. ap (opened ci i) (after-append sent first.1 _) ∙ known ci i flag,
      )

  events_of_ordered :
      (chunks : List ChatStreamChunk) (s : StreamState) (sent : List CoreStreamEvent)
      → AreKnown s.choices sent
      → AreOrdered sent (events_of unquote chunks s)
  unfolding events_of chunk_step
  events_of_ordered [] s sent k = (refl, tt)
  events_of_ordered (chunk ∷ chunks) s sent k =
      let (ordered, known) = choices_step_safe chunk.choices s.choices sent k in
      AreOrdered-append sent _ _ ordered (events_of_ordered chunks _ _ known)

  opened_in_same :
      (c : Option ℕ) (i : ℕ) (sent sent' : List CoreStreamEvent)
      → ((ci j : ℕ) → opened ci j sent' ≡ opened ci j sent)
      → opened_in c i sent' ≡ opened_in c i sent
  opened_in_same none i sent sent' same = refl
  opened_in_same (some ci) i sent sent' same = same ci i

  -- Numbers change nothing about the order.
  numbered_ordered :
      (n : ℕ) (es sent sent' : List CoreStreamEvent)
      → ((ci i : ℕ) → opened ci i sent' ≡ opened ci i sent)
      → AreOrdered sent es
      → AreOrdered sent' (numbered n es)
  unfolding numbered
  numbered_ordered n [] sent sent' same h = tt
  numbered_ordered n (e ∷ es) sent sent' same h = (
    ap (λ b. not (is_arguments e.kind) || b) (opened_in_same e.choice_index e.index sent sent' same)
        ∙ h.0,
    numbered_ordered (suc n) es (e ∷ sent) _ (λ ci i. ap (λ b. opens ci i e || b) (same ci i)) h.1,
  )

  -- Whatever chunks a stream receives, arguments of a tool call, and their end, are sent for a
  -- block only after a tool call was started for the same block of the same choice.
  pub to_core_stream-AreOrdered :
      (chunks : List ChatStreamChunk) → AreOrdered [] (to_core_stream unquote chunks)
  unfolding to_core_stream get
  to_core_stream-AreOrdered chunks =
      numbered_ordered 0 _ [] [] (λ ci i. refl)
        (events_of_ordered chunks new_stream_state [] (λ ci i flag. ground (arith, flag)))
