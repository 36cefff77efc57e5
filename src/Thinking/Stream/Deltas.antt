-- ===== src/Thinking/Stream/Deltas.antt =====
-- What a stream builds up: the thinking of a block is its first text and all its deltas, in order.
use moon_bridge.Prelude.{
  ℕ, String, ◌≡◌, refl, inl, inr, Bool, true, not, ◌&&◌, ◌||◌, some, List, [], ◌∷◌, if◌then◌else◌,
  ◌==◌, nat_comparable, string_comparable, arith, Bool-cases, ==_refl,
}
use Prim.Native.String.{◌++◌ as append}
use moon_bridge.Prelude.GoMap.{GoMap, get, put, get-put}
use moon_bridge.Thinking.Block.{CoreContentBlock, reasoning}
use moon_bridge.Thinking.Stream.{
  StreamState, StreamDelta, first_nonempty, text_at, is_reasoning_content_block, start, delta, stop,
}

-- The deltas of a stream, each with the index of its block.
unfoldable pub deltas : List (ℕ × StreamDelta) → StreamState → StreamState
deltas [] s = s
deltas ((index, d) ∷ ds) s = deltas ds (delta index d s).0

abbrev pub is_thinking : StreamDelta → Bool
is_thinking d = d.kind == "thinking_delta" || d.kind == "reasoning_content_delta"

abbrev pub is_signature : StreamDelta → Bool
is_signature d = not (is_thinking d) && d.kind == "signature_delta"

-- The text that the deltas of one block append to the text that is there.
unfoldable pub gathered :
    (StreamDelta → Bool) → (StreamDelta → String) → ℕ → List (ℕ × StreamDelta) → String → String
gathered test part index [] text = text
gathered test part index ((i, d) ∷ ds) text =
    gathered test part index ds (if i == index && test d then append text (part d) else text)

abbrev pub thinking_of : StreamDelta → String
thinking_of d = first_nonempty d.thinking d.text

abbrev pub signature_of : StreamDelta → String
signature_of d = first_nonempty d.signature d.text

text_at_found :
    (i index : ℕ) (m : GoMap ℕ String) (text : String)
    → get index m ≡ some text
    → (i == index) ≡ true
    → text_at i m ≡ text
text_at_found i index m text h same =
    let at : i ≡ index = (nat_comparable.equal_iff i index).0 same in rw at (rw (h, text_at) refl)

-- A text that is appended to at one index changes there alone.
appended :
    (i index : ℕ) (m : GoMap ℕ String) (text more : String)
    → get index m ≡ some text
    → get index (put i (append (text_at i m) more) m)
      ≡ some (if i == index then append text more else text)
appended i index m text more h = elim (Bool-cases (i == index)) [
  | inl here ↦
      rw (get-put i index (append (text_at i m) more) m)
        (rw here (rw (text_at_found i index m text h here) refl))
  | inr there ↦ rw (get-put i index (append (text_at i m) more) m) (rw there h)
]

-- One delta changes the thinking of its own block alone, and only if it is thinking.
thinking-delta :
    (index i : ℕ) (d : StreamDelta) (s : StreamState) (text : String)
    → get index s.thinking_text ≡ some text
    → get index (delta i d s).0.thinking_text
      ≡ some (if i == index && is_thinking d then append text (thinking_of d) else text)
unfolding delta
thinking-delta index i d s text h = elim (Bool-cases (is_thinking d)) [
  | inl t ↦ rw t (ground (arith, appended i index s.thinking_text text (thinking_of d) h))
  | inr f ↦ rw f (elim (Bool-cases (d.kind == "signature_delta")) [
    | inl g ↦ rw g (ground arith)
    | inr g ↦ rw g (ground arith)
  ])
]

signature-delta :
    (index i : ℕ) (d : StreamDelta) (s : StreamState) (text : String)
    → get index s.thinking_signature ≡ some text
    → get index (delta i d s).0.thinking_signature
      ≡ some (if i == index && is_signature d then append text (signature_of d) else text)
unfolding delta
signature-delta index i d s text h = elim (Bool-cases (is_thinking d)) [
  | inl t ↦ rw t (ground arith)
  | inr f ↦ rw f (elim (Bool-cases (d.kind == "signature_delta")) [
    | inl g ↦ rw g (ground (arith, appended i index s.thinking_signature text (signature_of d) h))
    | inr g ↦ rw g (ground arith)
  ])
]

thinking-deltas :
    (index : ℕ) (ds : List (ℕ × StreamDelta)) (s : StreamState) (text : String)
    → get index s.thinking_text ≡ some text
    → get index (deltas ds s).thinking_text ≡ some (gathered is_thinking thinking_of index ds text)
unfolding deltas gathered
thinking-deltas index [] s text h = h
thinking-deltas index ((i, d) ∷ ds) s text h =
    thinking-deltas index ds (delta i d s).0 _ (thinking-delta index i d s text h)

signature-deltas :
    (index : ℕ) (ds : List (ℕ × StreamDelta)) (s : StreamState) (text : String)
    → get index s.thinking_signature ≡ some text
    → get index (deltas ds s).thinking_signature
      ≡ some (gathered is_signature signature_of index ds text)
unfolding deltas gathered
signature-deltas index [] s text h = h
signature-deltas index ((i, d) ∷ ds) s text h =
    signature-deltas index ds (delta i d s).0 _ (signature-delta index i d s text h)

stop_eqn :
    (index : ℕ) (s : StreamState) (text signature : String)
    → get index s.thinking_text ≡ some text
    → get index s.thinking_signature ≡ some signature
    → (stop index s).0.completed_thinking ≡ reasoning text signature
unfolding stop
stop_eqn index s text signature h g = rw (h, stop) (rw (g, text_at) refl)

started :
    (index : ℕ) (b : CoreContentBlock) (s : StreamState)
    → is_reasoning_content_block b ≡ true
    → (get index (start index b s).0.thinking_text ≡ some (first_nonempty b.reasoning_text b.text))
      × (get index (start index b s).0.thinking_signature ≡ some b.reasoning_signature)
unfolding start
started index b s taken = rw taken (
  ground (
    arith,
    get-put index index (first_nonempty b.reasoning_text b.text) s.thinking_text,
    ==_refl index,
  ),
  ground (arith, get-put index index b.reasoning_signature s.thinking_signature, ==_refl index),
)

-- If a block is taken at `Start`, then after any deltas, those of other blocks among them, `Stop`
-- completes it with its first text and all its thinking deltas in order, and likewise its
-- signature.
pub stop-start :
    (index : ℕ) (b : CoreContentBlock) (ds : List (ℕ × StreamDelta)) (s : StreamState)
    → is_reasoning_content_block b ≡ true
    → (stop index (deltas ds (start index b s).0)).0.completed_thinking
      ≡ reasoning
          (gathered is_thinking thinking_of index ds (first_nonempty b.reasoning_text b.text))
          (gathered is_signature signature_of index ds b.reasoning_signature)
stop-start index b ds s taken =
    let (text, signature) = started index b s taken in
    stop_eqn index (deltas ds (start index b s).0) _ _
      (thinking-deltas index ds (start index b s).0 _ text)
      (signature-deltas index ds (start index b s).0 _ signature)
