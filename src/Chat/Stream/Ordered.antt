-- ===== src/Chat/Stream/Ordered.antt =====
-- Streams in which the arguments of a call come only after the call was announced.
use moon_bridge.Prelude.{
  ℕ, ◌≡◌, refl, sym, ◌∙◌, ap, Bool, true, false, not, ◌&&◌, ◌||◌, Option, none, some, List, [], ◌∷◌,
  ◌++◌, if◌then◌else◌, ◌==◌, nat_comparable, string_comparable, All,
}
use moon_bridge.Prelude.GoMap.{get}
use moon_bridge.Format.Blocks
use moon_bridge.Format.Events.{CoreStreamEvent, EventType, block_started, args_delta, args_done}
use moon_bridge.Chat.Choice.{ChoiceState, Step, ◌▹◌, flags_of, call_flag}

abbrev pub is_arguments : EventType → Bool
is_arguments args_delta = true
is_arguments args_done = true
is_arguments _ = false

abbrev pub is_start : EventType → Bool
is_start block_started = true
is_start _ = false

abbrev pub is_call : CoreStreamEvent → Bool
is_call e = elim e.content_block [ none ↦ false | some b ↦ (Blocks.fields b).kind == "tool_use" ]

abbrev pub in_choice : Option ℕ → ℕ → Bool
in_choice none ci = false
in_choice (some c) ci = c == ci

-- The event starts the call at an index of a choice.
abbrev pub opens : ℕ → ℕ → CoreStreamEvent → Bool
opens ci i e = is_start e.kind && is_call e && in_choice e.choice_index ci && e.index == i

-- One of the events does.
abbrev pub opened : ℕ → ℕ → List CoreStreamEvent → Bool
opened ci i [] = false
opened ci i (e ∷ es) = opens ci i e || opened ci i es

abbrev pub opened_in : Option ℕ → ℕ → List CoreStreamEvent → Bool
opened_in none i sent = false
opened_in (some ci) i sent = opened ci i sent

-- Arguments, or their end, come only for a call that was started before.
abbrev pub is_allowed : List CoreStreamEvent → CoreStreamEvent → Bool
is_allowed sent e = not (is_arguments e.kind) || opened_in e.choice_index e.index sent

-- Every event is allowed by those before it, the last of which come first in `sent`.
abbrev pub AreOrdered : List CoreStreamEvent → List CoreStreamEvent → Type 0
AreOrdered sent [] = Unit
AreOrdered sent (e ∷ es) = (is_allowed sent e ≡ true) × AreOrdered (e ∷ sent) es

abbrev pub after : List CoreStreamEvent → List CoreStreamEvent → List CoreStreamEvent
after sent [] = sent
after sent (e ∷ es) = after (e ∷ sent) es

pub after-append :
    (sent xs ys : List CoreStreamEvent) → after sent (xs ++ ys) ≡ after (after sent xs) ys
after-append sent [] ys = refl
after-append sent (x ∷ xs) ys = after-append (x ∷ sent) xs ys

pub AreOrdered-append :
    (sent xs ys : List CoreStreamEvent)
    → AreOrdered sent xs
    → AreOrdered (after sent xs) ys
    → AreOrdered sent (xs ++ ys)
AreOrdered-append sent [] ys h k = k
AreOrdered-append sent (x ∷ xs) ys h k = (h.0, AreOrdered-append (x ∷ sent) xs ys h.1 k)

pub or_true : (a : Bool) {b : Bool} → b ≡ true → (a || b) ≡ true
or_true true h = refl
or_true false h = h

pub opened-after :
    (ci i : ℕ) (sent es : List CoreStreamEvent)
    → opened ci i sent ≡ true
    → opened ci i (after sent es) ≡ true
opened-after ci i sent [] h = h
opened-after ci i sent (e ∷ es) h = opened-after ci i (e ∷ sent) es (or_true (opens ci i e) h)

-- The calls that a choice has started were announced.
abbrev pub IsKnown : ℕ → ChoiceState → List CoreStreamEvent → Type 0
IsKnown ci s sent = (i : ℕ) → call_flag s i ≡ true → opened ci i sent ≡ true

-- A step is safe: its events are in order, and its state is known afterwards.
pub record IsSafe (ci : ℕ) (sent : List CoreStreamEvent) (step : Step) : Type 0 where
  pub ordered : AreOrdered sent step.1
  pub known : IsKnown ci step.0 (after sent step.1)

-- A step from a known state.
abbrev pub Keeps : ℕ → (ChoiceState → Step) → Type 0
Keeps ci f =
    (s : ChoiceState) (sent : List CoreStreamEvent) → IsKnown ci s sent → IsSafe ci sent (f s)

pub IsSafe-▹ :
    (ci : ℕ) (sent : List CoreStreamEvent) (p : Step) (f : ChoiceState → Step)
    → IsSafe ci sent p
    → Keeps ci f
    → IsSafe ci sent (p ▹ f)
IsSafe-▹ ci sent p f h k =
    let next = k p.0 (after sent p.1) h.known in
    record {
      ordered = AreOrdered-append sent p.1 (f p.0).1 h.ordered next.ordered;
      known = λ i flag. ap (opened ci i) (after-append sent p.1 (f p.0).1) ∙ next.known i flag;
    }

pub IsSafe-if :
    (ci : ℕ) (sent : List CoreStreamEvent) (b : Bool) (x y : Step)
    → IsSafe ci sent x
    → IsSafe ci sent y
    → IsSafe ci sent (if b then x else y)
IsSafe-if ci sent true x y h k = h
IsSafe-if ci sent false x y h k = k

pub ordered_plain :
    (sent es : List CoreStreamEvent)
    → All (λ (e : CoreStreamEvent). is_arguments e.kind ≡ false) es
    → AreOrdered sent es
ordered_plain sent [] h = tt
ordered_plain sent (e ∷ es) h = (rw h.0 refl, ordered_plain (e ∷ sent) es h.1)

-- A step that starts no call.
pub IsSafe-ordered :
    (ci : ℕ) (sent : List CoreStreamEvent) (s s' : ChoiceState) (es : List CoreStreamEvent)
    → IsKnown ci s sent
    → flags_of s'.call_started ≡ flags_of s.call_started
    → AreOrdered sent es
    → IsSafe ci sent (s', es)
IsSafe-ordered ci sent s s' es known same ordered = record {
  ordered = ordered;
  known = λ i flag.
      opened-after ci i sent es
        (known i (ap (λ m. elim (get i m) [ none ↦ false | some b ↦ b ]) (sym same) ∙ flag));
}

-- A step that sends no arguments either.
pub IsSafe-plain :
    (ci : ℕ) (sent : List CoreStreamEvent) (s s' : ChoiceState) (es : List CoreStreamEvent)
    → IsKnown ci s sent
    → flags_of s'.call_started ≡ flags_of s.call_started
    → All (λ (e : CoreStreamEvent). is_arguments e.kind ≡ false) es
    → IsSafe ci sent (s', es)
IsSafe-plain ci sent s s' es known same plain =
    IsSafe-ordered ci sent s s' es known same (ordered_plain sent es plain)
