-- ===== src/Anthropic/Request/Merging.antt =====
-- The loop that merges the results of tools: no block is lost, and nothing is left to merge.
use mathlib.Core.List.{append_assoc, append-nil}
use moon_bridge.Prelude.{
  String, ◌≡◌, refl, sym, ◌∙◌, ap, inl, inr, true, false, ◌&&◌, List, [], ◌∷◌, ◌++◌, map,
  string_comparable, arith, Bool-cases,
}
use moon_bridge.Format.Messages.{CoreMessage}
use moon_bridge.Anthropic.Types.{ContentBlock, Message}
use moon_bridge.Anthropic.Request.{
  all_results, is_tool_result_only, carries_results, add_message, to_message, add_messages,
}

-- No two messages that follow each other both carry results alone.
abbrev pub AreMerged : List Message → Type 0
AreMerged [] = Unit
AreMerged (x ∷ []) = Unit
AreMerged (x ∷ y ∷ ms) = ((carries_results x && carries_results y) ≡ false) × AreMerged (y ∷ ms)

abbrev pub tag : String → List ContentBlock → List (String × ContentBlock)
tag role [] = []
tag role (b ∷ bs) = (role, b) ∷ tag role bs

-- The blocks of all messages in order, each with the role of its message.
abbrev pub tagged : List Message → List (String × ContentBlock)
tagged [] = []
tagged (m ∷ ms) = tag m.role m.content ++ tagged ms

tag-append :
    (role : String) (xs ys : List ContentBlock) → tag role (xs ++ ys) ≡ tag role xs ++ tag role ys
tag-append role [] ys = refl
tag-append role (x ∷ xs) ys = λ i. (role, x) ∷ tag-append role xs ys i

all_results-append :
    (xs ys : List ContentBlock)
    → all_results xs ≡ true
    → all_results ys ≡ true
    → all_results (xs ++ ys) ≡ true
all_results-append [] ys h k = k
all_results-append (x ∷ xs) ys h k = ground (arith, all_results-append xs ys)

is_tool_result_only-append :
    (xs ys : List ContentBlock)
    → is_tool_result_only xs ≡ true
    → is_tool_result_only ys ≡ true
    → is_tool_result_only (xs ++ ys) ≡ true
unfolding is_tool_result_only
is_tool_result_only-append [] ys h k = k
is_tool_result_only-append (x ∷ xs) ys h k = ground (arith, all_results-append (x ∷ xs) ys)

abbrev joined : Message → Message → Message
joined x m = record x { content = x.content ++ m.content }

carries_results-joined :
    (x m : Message)
    → (carries_results m && carries_results x) ≡ true
    → carries_results (joined x m) ≡ carries_results x
carries_results-joined x m h = ground (arith, is_tool_result_only-append x.content m.content)

roles_agree : (x m : Message) → (carries_results m && carries_results x) ≡ true → m.role ≡ x.role
roles_agree x m h =
    let of_m : m.role ≡ "user" = (string_comparable.equal_iff m.role "user").0 (ground arith) in
    let of_x : x.role ≡ "user" = (string_comparable.equal_iff x.role "user").0 (ground arith) in
    of_m ∙ sym of_x

AreMerged-add_message :
    (m : Message) (ms : List Message) → AreMerged ms → AreMerged (add_message m ms)
unfolding add_message
AreMerged-add_message m [] h = tt
AreMerged-add_message m (x ∷ []) h = elim (Bool-cases (carries_results m && carries_results x)) [
  | inl both ↦ rw both tt
  | inr apart ↦ rw apart (ground arith, tt)
]
AreMerged-add_message m (x ∷ y ∷ []) h =
    elim (Bool-cases (carries_results m && carries_results y)) [
      | inl both ↦ rw both (ground (arith, carries_results-joined y m), tt)
      | inr apart ↦ rw apart (h.0, (ground arith, tt))
    ]
AreMerged-add_message m (x ∷ y ∷ z ∷ ms) h = (h.0, AreMerged-add_message m (y ∷ z ∷ ms) h.1)

tagged-add_message :
    (m : Message) (ms : List Message)
    → tagged (add_message m ms) ≡ tagged ms ++ tag m.role m.content
unfolding add_message
tagged-add_message m [] = append-nil (tag m.role m.content)
tagged-add_message m (x ∷ []) = elim (Bool-cases (carries_results m && carries_results x)) [
  | inl both ↦ rw both (
      append-nil (tag x.role (x.content ++ m.content))
      ∙ tag-append x.role x.content m.content
      ∙ (λ i.
          sym (append-nil (tag x.role x.content)) i
          ++ tag (sym (roles_agree x m both) i) m.content))
  | inr apart ↦
      rw apart
        (λ i. sym (append-nil (tag x.role x.content)) i ++ append-nil (tag m.role m.content) i)
]
tagged-add_message m (x ∷ y ∷ ms) =
    ap (λ t. tag x.role x.content ++ t) (tagged-add_message m (y ∷ ms))
    ∙ sym (append_assoc (tag x.role x.content) (tagged (y ∷ ms)) (tag m.role m.content))

add_messages_onto :
    (ms : List CoreMessage) (added : List Message)
    → AreMerged added
    → AreMerged (add_messages ms added)
      × (tagged (add_messages ms added) ≡ tagged added ++ tagged (map to_message ms))
unfolding add_messages
add_messages_onto [] added h = (h, sym (append-nil (tagged added)))
add_messages_onto (m ∷ ms) added h =
    let (merged, kept) =
      add_messages_onto ms (add_message (to_message m) added)
        (AreMerged-add_message (to_message m) added h) in
    (
      merged,
      kept
          ∙ ap (λ t. t ++ tagged (map to_message ms)) (tagged-add_message (to_message m) added)
          ∙ append_assoc (tagged added) (tag (to_message m).role (to_message m).content)
              (tagged (map to_message ms)),
    )

-- The messages of a request are merged completely and without loss: no two adjacent messages are
-- both user messages of tool results alone, and the blocks, each with the role of its message,
-- are those of the converted messages in their order.
pub add_messages-AreMerged :
    (ms : List CoreMessage)
    → AreMerged (add_messages ms []) × (tagged (add_messages ms []) ≡ tagged (map to_message ms))
add_messages-AreMerged ms = add_messages_onto ms [] tt
