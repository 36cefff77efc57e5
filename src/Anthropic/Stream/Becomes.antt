-- ===== src/Anthropic/Stream/Becomes.antt =====
-- How events, one after the other, move the converter of a stream.
use mathlib.Core.List.{append_assoc, append-nil}
use moon_bridge.Prelude.{
  ℕ, suc, String, ◌≡◌, refl, sym, ◌∙◌, ap, List, [], ◌∷◌, ◌++◌, map, nat_comparable,
  string_comparable, All,
}
use moon_bridge.Format.Events.{CoreStreamEvent}
use moon_bridge.Anthropic.Types.{StreamEvent}
use moon_bridge.Anthropic.Stream.{ConverterState, react, emit_all, convert_event, at}
use moon_bridge.Anthropic.Stream.Parts.{unnumbered}

-- Events, one after the other, from a state.
unfoldable pub send : List StreamEvent → ConverterState → ConverterState × List CoreStreamEvent
send [] s = (s, [])
send (ev ∷ evs) s =
    let (s', first) = convert_event ev s in let (s'', rest) = send evs s' in (s'', first ++ rest)

-- Nothing is suppressed and no signature is stored; the model is known.
abbrev pub IsReady : String → ConverterState → Type 0
IsReady model s = (s.suppress_text ≡ []) × (s.block_signatures ≡ []) × (s.model ≡ model)

-- And the block at an index has a type.
abbrev pub IsOpen : String → ℕ → String → ConverterState → Type 0
IsOpen model i kind s = IsReady model s × (at s.block_types i ≡ kind)

-- Events that become others, from states with one property to states with another.
pub record Becomes (P : ConverterState → Type 0) (evs : List StreamEvent)
    (es : List CoreStreamEvent) (Q : ConverterState → Type 0) : Type 0 where
  pub from : (s : ConverterState) → P s → (map unnumbered (send evs s).1 ≡ es) × Q (send evs s).0

pub map-append :
    (xs ys : List CoreStreamEvent)
    → map unnumbered (xs ++ ys) ≡ map unnumbered xs ++ map unnumbered ys
map-append [] ys = refl
map-append (x ∷ xs) ys = λ i. unnumbered x ∷ map-append xs ys i

-- What does not depend on the counter.
abbrev pub IsStable : (ConverterState → Type 0) → Type 0
IsStable P = (n : ℕ) (s : ConverterState) → P s → P (record s { seq_num = n })

pub emitted :
    (P : ConverterState → Type 0) (es : List CoreStreamEvent) (s : ConverterState)
    → IsStable P
    → P s
    → (map unnumbered (emit_all s es).1 ≡ map unnumbered es) × P (emit_all s es).0
unfolding emit_all
emitted P [] s stable p = (refl, p)
emitted P (e ∷ es) s stable p =
    let (same, after) =
      emitted P es (record s { seq_num = suc s.seq_num }) stable (stable (suc s.seq_num) s p) in
    ((λ i. unnumbered e ∷ same i), after)

-- One event, by what it makes the converter do.
pub one :
    {P Q : ConverterState → Type 0} (ev : StreamEvent) (es : List CoreStreamEvent)
    → IsStable Q
    → map unnumbered es ≡ es
    → ((s : ConverterState) → P s → ((react ev s).1 ≡ es) × Q (react ev s).0)
    → Becomes P (ev ∷ []) es Q
unfolding send convert_event
one {Q = Q} ev es stable plain h = record {
  from = λ s p.
      let (same, q) = h s p in
      let (sent, after) = emitted Q (react ev s).1 (react ev s).0 stable q in
      (
        ap (map unnumbered) (append-nil (emit_all (react ev s).0 (react ev s).1).1)
            ∙ sent
            ∙ ap (map unnumbered) same
            ∙ plain,
        after,
      );
}

pub send-append :
    (xs ys : List StreamEvent) (s : ConverterState)
    → ((send (xs ++ ys) s).1 ≡ (send xs s).1 ++ (send ys (send xs s).0).1)
      × ((send ys (send xs s).0).0 ≡ (send (xs ++ ys) s).0)
unfolding send
send-append [] ys s = (refl, refl)
send-append (x ∷ xs) ys s =
    let (sent, last) = send-append xs ys (convert_event x s).0 in
    (
      ap (λ t. (convert_event x s).1 ++ t) sent
          ∙ sym (append_assoc (convert_event x s).1 (send xs (convert_event x s).0).1 _),
      last,
    )

infixr 40 ◌▸◌
-- Events after others.
pub ◌▸◌ :
    {P Q R : ConverterState → Type 0} {xs ys : List StreamEvent} {es fs : List CoreStreamEvent}
    → Becomes P xs es Q
    → Becomes Q ys fs R
    → Becomes P (xs ++ ys) (es ++ fs) R
◌▸◌ {R = R} {xs = xs} {ys = ys} h k = record {
  from = λ s p.
      let (sent, last) = send-append xs ys s in
      let (first, q) = h.from s p in
      let (second, r) = k.from (send xs s).0 q in
      (
        ap (map unnumbered) sent
            ∙ map-append (send xs s).1 (send ys (send xs s).0).1
            ∙ (λ i. first i ++ second i),
        coe 0 1 (i. R (last i)) r,
      );
}

pub All_of : {P : String → Type 0} (ts : List String) → ((t : String) → P t) → All P ts
All_of [] h = tt
All_of (t ∷ ts) h = (h t, All_of ts h)

-- Events of one kind that leave the property as it is.
pub each :
    {P : ConverterState → Type 0} (ev : String → StreamEvent) (e : String → CoreStreamEvent)
    (ts : List String)
    → All (λ t. Becomes P (ev t ∷ []) (e t ∷ []) P) ts
    → Becomes P (map ev ts) (map e ts) P
unfolding send
each ev e [] h = record { from = λ s p. (refl, p) }
each ev e (t ∷ ts) h = h.0 ▸ each ev e ts h.1
