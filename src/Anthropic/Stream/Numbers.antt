-- ===== src/Anthropic/Stream/Numbers.antt =====
-- The numbers of the events that a stream sends, and the events that its buffer keeps.
use mathlib.Core.List.{append_assoc, append-nil}
use moon_bridge.Prelude.{
  ℕ, zero, suc, ◌+◌, ◌≤◌, ◌≡◌, refl, sym, ◌∙◌, ap, inl, inr, List, [], ◌∷◌, ◌++◌, leb, length,
  length-append, arith, Bool-cases, Option, none, some,
}
use moon_bridge.Format.Events.{CoreStreamEvent}
use moon_bridge.Anthropic.Types.{ContentBlock, Usage, MessageResponse, StreamDelta, StreamEvent}
use moon_bridge.Anthropic.Stream.{
  ConverterState, new_converter_state, react, start_message, start_block, delta_block, stop_block,
  delta_message, with_message, with_content, emit_all, convert_event, buffer_stream_event, Next,
  next_event, ends, fails, run, to_core_stream,
}

-- The numbers after `n`, as many as there are.
abbrev pub count_from : ℕ → ℕ → List ℕ
count_from n zero = []
count_from n (suc k) = suc n ∷ count_from (suc n) k

abbrev pub number : CoreStreamEvent → ℕ
number e = e.seq_num

abbrev pub numbers : List CoreStreamEvent → List ℕ
numbers [] = []
numbers (e ∷ es) = e.seq_num ∷ numbers es

numbers-append : (xs ys : List CoreStreamEvent) → numbers (xs ++ ys) ≡ numbers xs ++ numbers ys
numbers-append [] ys = refl
numbers-append (x ∷ xs) ys = λ i. x.seq_num ∷ numbers-append xs ys i

count_from-add : (n j k : ℕ) → count_from n (j + k) ≡ count_from n j ++ count_from (n + j) k
count_from-add n zero k =
    let here : 0 + k ≡ k = omega arith in
    let there : n + 0 ≡ n = omega arith in λ i. count_from (sym there i) (here i)
count_from-add n (suc j) k =
    let here : suc j + k ≡ suc (j + k) = omega arith in
    let there : suc n + j ≡ n + suc j = omega arith in
    ap (count_from n) here
    ∙ ap (λ (x : List ℕ). suc n ∷ x) (count_from-add (suc n) j k)
    ∙ ap (λ (x : ℕ). count_from n (suc j) ++ count_from x k) there

-- No reaction touches the counter.
seq_num-delta_block :
    (index : ℕ) (d : StreamDelta) (s : ConverterState)
    → (delta_block index d s).0.seq_num ≡ s.seq_num
unfolding delta_block
seq_num-delta_block index d s = ground arith

seq_num-stop_block : (index : ℕ) (s : ConverterState) → (stop_block index s).0.seq_num ≡ s.seq_num
unfolding stop_block
seq_num-stop_block index s = ground arith

seq_num-with_message :
    (m : Option MessageResponse) (s : ConverterState)
    → (with_message start_message m s).0.seq_num ≡ s.seq_num
unfolding start_message
seq_num-with_message none s = refl
seq_num-with_message (some m) s = refl

seq_num-with_content :
    (index : ℕ) (b : Option ContentBlock) (s : ConverterState)
    → (with_content (start_block index) b s).0.seq_num ≡ s.seq_num
unfolding start_block
seq_num-with_content index none s = refl
seq_num-with_content index (some b) s = refl

seq_num-delta_message :
    (u : Option Usage) (d : StreamDelta) (s : ConverterState)
    → (delta_message u d s).0.seq_num ≡ s.seq_num
unfolding delta_message
seq_num-delta_message none d s = refl
seq_num-delta_message (some u) d s = refl

seq_num-react : (ev : StreamEvent) (s : ConverterState) → (react ev s).0.seq_num ≡ s.seq_num
unfolding react
seq_num-react ev s = ground (
  arith,
  seq_num-with_message ev.message s,
  seq_num-with_content ev.index ev.content_block s,
  seq_num-delta_block ev.index ev.delta s,
  seq_num-stop_block ev.index s,
  seq_num-delta_message ev.usage ev.delta s,
)

-- Events in the order of their numbers, which go on from `n` and end at `last`.
abbrev IsNumbered : ℕ → List CoreStreamEvent → ℕ → Type 0
IsNumbered n es last = (numbers es ≡ count_from n (length es)) × (last ≡ n + length es)

IsNumbered-append :
    (n m last : ℕ) (xs ys : List CoreStreamEvent)
    → IsNumbered n xs m
    → IsNumbered m ys last
    → IsNumbered n (xs ++ ys) last
IsNumbered-append n m last xs ys (h, at) (k, last_at) = (
  numbers-append xs ys
      ∙ (λ i. h i ++ (k ∙ ap (λ (x : ℕ). count_from x (length ys)) at) i)
      ∙ sym (count_from-add n (length xs) (length ys))
      ∙ ap (count_from n) (sym (length-append xs ys)),
  omega (arith, length-append xs ys),
)

IsNumbered-emit_all :
    (es : List CoreStreamEvent) (s : ConverterState)
    → IsNumbered s.seq_num (emit_all s es).1 (emit_all s es).0.seq_num
unfolding emit_all
IsNumbered-emit_all [] s = (refl, omega arith)
IsNumbered-emit_all (e ∷ es) s =
    let (h, last) = IsNumbered-emit_all es (record s { seq_num = suc s.seq_num }) in
    ((λ i. suc s.seq_num ∷ h i), omega (arith, last))

IsNumbered-convert_event :
    (ev : StreamEvent) (s : ConverterState)
    → IsNumbered s.seq_num (convert_event ev s).1 (convert_event ev s).0.seq_num
unfolding convert_event
IsNumbered-convert_event ev s =
    coe 0 1
      (i. IsNumbered (seq_num-react ev s i) (convert_event ev s).1 (convert_event ev s).0.seq_num)
      (IsNumbered-emit_all (react ev s).1 (react ev s).0)

IsNumbered-run :
    (received : List Next) (s : ConverterState) (buffer : List StreamEvent)
    → IsNumbered s.seq_num (run received s buffer).sent (run received s buffer).state.seq_num
unfolding run
IsNumbered-run [] s buffer = (refl, omega arith)
IsNumbered-run (ends ∷ rest) s buffer = (refl, omega arith)
IsNumbered-run (fails message ∷ rest) s buffer = IsNumbered-emit_all _ s
IsNumbered-run (next_event ev ∷ rest) s buffer =
    IsNumbered-append s.seq_num (convert_event ev s).0.seq_num _ (convert_event ev s).1 _
      (IsNumbered-convert_event ev s)
      (IsNumbered-run rest (convert_event ev s).0 (buffer_stream_event ev buffer))

-- The events that are read before the stream ends.
abbrev pub events_of : List Next → List StreamEvent
events_of [] = []
events_of (next_event ev ∷ rest) = ev ∷ events_of rest
events_of (ends ∷ rest) = []
events_of (fails message ∷ rest) = []

-- The first of a list.
abbrev pub first_of : ℕ → List StreamEvent → List StreamEvent
first_of zero xs = []
first_of (suc n) [] = []
first_of (suc n) (x ∷ xs) = x ∷ first_of n xs

first_of-full :
    (n : ℕ) (xs ys : List StreamEvent) → n ≤ length xs → first_of n (xs ++ ys) ≡ first_of n xs
first_of-full zero xs ys h = refl
first_of-full (suc n) [] ys h = ground arith
first_of-full (suc n) (x ∷ xs) ys h = λ i. x ∷ first_of-full n xs ys (omega (arith, h)) i

first_of-all : (n : ℕ) (xs : List StreamEvent) → length xs ≤ n → first_of n xs ≡ xs
first_of-all zero [] h = refl
first_of-all zero (x ∷ xs) h = ground arith
first_of-all (suc n) [] h = refl
first_of-all (suc n) (x ∷ xs) h = λ i. x ∷ first_of-all n xs (omega (arith, h)) i

buffer_ended :
    (buffer : List StreamEvent) → length buffer ≤ 1024 → buffer ≡ first_of 1024 (buffer ++ [])
buffer_ended buffer h = sym (ap (first_of 1024) (append-nil buffer) ∙ first_of-all 1024 buffer h)

-- A buffer that is full keeps what it has, as the first of a longer list does.
first_of-buffer_stream_event :
    (ev : StreamEvent) (buffer rest : List StreamEvent)
    → first_of 1024 (buffer_stream_event ev buffer ++ rest) ≡ first_of 1024 (buffer ++ ev ∷ rest)
unfolding buffer_stream_event
first_of-buffer_stream_event ev buffer rest = elim (Bool-cases (leb 1024 (length buffer))) [
  | inl full ↦
      let h : 1024 ≤ length buffer = ground arith in
      rw full (first_of-full 1024 buffer rest h ∙ sym (first_of-full 1024 buffer (ev ∷ rest) h))
  | inr room ↦ rw room (ap (first_of 1024) (append_assoc buffer (ev ∷ []) rest))
]

length-buffer_stream_event :
    (ev : StreamEvent) (buffer : List StreamEvent)
    → length buffer ≤ 1024
    → length (buffer_stream_event ev buffer) ≤ 1024
unfolding buffer_stream_event
length-buffer_stream_event ev buffer h = ground (arith, length-append buffer (ev ∷ []))

buffer-run :
    (received : List Next) (s : ConverterState) (buffer : List StreamEvent)
    → length buffer ≤ 1024
    → (run received s buffer).buffer ≡ first_of 1024 (buffer ++ events_of received)
unfolding run
buffer-run [] s buffer h = buffer_ended buffer h
buffer-run (ends ∷ rest) s buffer h = buffer_ended buffer h
buffer-run (fails message ∷ rest) s buffer h = buffer_ended buffer h
buffer-run (next_event ev ∷ rest) s buffer h =
    buffer-run rest (convert_event ev s).0 (buffer_stream_event ev buffer)
      (length-buffer_stream_event ev buffer h)
    ∙ first_of-buffer_stream_event ev buffer (events_of rest)

-- Whatever a stream receives, the events that it sends are numbered 1, 2, 3 and so on without a
-- gap, and the buffer holds exactly the first 1024 events read before the stream ended.
pub to_core_stream-numbers :
    (received : List Next)
    → (numbers (to_core_stream received).sent
        ≡ count_from 0 (length (to_core_stream received).sent))
      × ((to_core_stream received).buffer ≡ first_of 1024 (events_of received))
unfolding to_core_stream
to_core_stream-numbers received = (
  (IsNumbered-run received new_converter_state []).0,
  buffer-run received new_converter_state [] (omega arith),
)
