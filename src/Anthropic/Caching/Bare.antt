-- ===== src/Anthropic/Caching/Bare.antt =====
-- Injecting the marks of a plan changes nothing else.
use moon_bridge.Prelude.{
  ◌≡◌, refl, ◌∙◌, none, some, List, [], ◌∷◌, map, length, ◌==◌, ◌||◌, string_comparable, inl, inr,
  Bool-cases,
}
use moon_bridge.Prelude.Int.{ℤ}
use moon_bridge.Prelude.Updates.{map-set_at}
use moon_bridge.Anthropic.Types.{CacheControl, ContentBlock, block, Message, Tool, MessageRequest}
use moon_bridge.Cache.Planner.{CacheBreakpoint, CacheCreationPlan}
use moon_bridge.Anthropic.Caching.{
  control_of, mark_tool, mark_block, mark_message, inject_one, inject_all, inject_cache_control,
  in_range, content_at,
}

-- The parts of a request without their marks.
abbrev pub bare_tool : Tool → Tool
bare_tool t = record t { cache_control = none }

unfoldable pub bare_block : ContentBlock → ContentBlock
bare_block (block f inner) = block (record f { cache_control = none }) inner

abbrev pub bare_message : Message → Message
bare_message m = record m { content = map bare_block m.content }

unfoldable pub bare : MessageRequest → MessageRequest
bare req = record req {
  tools = map bare_tool req.tools;
  system = map bare_block req.system;
  messages = map bare_message req.messages;
  cache_control = none;
}

bare_block-mark_block :
    (c : CacheControl) (b : ContentBlock) → bare_block (mark_block c b) ≡ bare_block b
unfolding bare_block mark_block
bare_block-mark_block c (block f inner) = refl

bare_message-mark_message :
    (c : CacheControl) (index : ℤ) (m : Message)
    → bare_message (mark_message c index m) ≡ bare_message m
bare_message-mark_message c index m = λ i. record m {
  content =
      map-set_at bare_block (mark_block c) (bare_block-mark_block c)
        (content_at index (length m.content)) m.content i;
}

bare-inject_one :
    (c : CacheControl) (bp : CacheBreakpoint) (req : MessageRequest)
    → bare (inject_one c bp req) ≡ bare req
unfolding bare inject_one
bare-inject_one c bp req = elim (Bool-cases (bp.scope == "tools")) [
  | inl t ↦ rw t (λ i. record (bare req) {
    tools =
        map-set_at bare_tool (mark_tool c) (λ x. refl) (in_range bp.scope_index (length req.tools))
          req.tools i;
  })
  | inr nt ↦ rw nt (elim (Bool-cases (bp.scope == "system")) [
    | inl s ↦ rw s (λ i. record (bare req) {
      system =
          map-set_at bare_block (mark_block c) (bare_block-mark_block c)
            (in_range bp.scope_index (length req.system)) req.system i;
    })
    | inr ns ↦ rw ns (elim (Bool-cases (bp.scope == "messages")) [
      | inl m ↦ rw m (λ i. record (bare req) {
        messages =
            map-set_at bare_message (mark_message c bp.content_index)
              (bare_message-mark_message c bp.content_index)
              (in_range bp.scope_index (length req.messages)) req.messages i;
      })
      | inr nm ↦ rw nm refl
    ])
  ])
]

bare-inject_all :
    (c : CacheControl) (bps : List CacheBreakpoint) (req : MessageRequest)
    → bare (inject_all c bps req) ≡ bare req
unfolding inject_all
bare-inject_all c [] req = refl
bare-inject_all c (bp ∷ bps) req =
    bare-inject_all c bps (inject_one c bp req) ∙ bare-inject_one c bp req

pub bare-inject_cache_control :
    (p : CacheCreationPlan) (req : MessageRequest) → bare (inject_cache_control p req) ≡ bare req
unfolding inject_cache_control bare
bare-inject_cache_control p req = elim (Bool-cases (p.mode == "off")) [
  | inl off ↦ rw off refl
  | inr on ↦ rw on (elim (Bool-cases (p.mode == "automatic" || p.mode == "hybrid")) [
    | inl a ↦ rw a (
        bare-inject_all (control_of p) p.breakpoints
          (record req { cache_control = some (control_of p) }))
    | inr na ↦ rw na (bare-inject_all (control_of p) p.breakpoints req)
  ])
]
