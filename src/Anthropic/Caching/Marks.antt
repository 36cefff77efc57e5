-- ===== src/Anthropic/Caching/Marks.antt =====
-- What planning a cache does to a request: it only adds marks, and never more than the limit.
use moon_bridge.Prelude.{
  ℕ, ◌+◌, ◌≤◌, String, ◌≡◌, refl, Option, none, some, List, [], ◌∷◌, length, ◌==◌, ◌||◌,
  string_comparable, arith, inl, inr, Bool-cases, Option-cases,
}
use moon_bridge.Prelude.Updates.{total, total-set_at}
use moon_bridge.Format.Json.{Members}
use moon_bridge.Cache.Registry.{MemoryRegistry}
use moon_bridge.Anthropic.Types.{CacheControl, ContentBlock, block, Message, Tool, MessageRequest}
use moon_bridge.Cache.Planner.{
  PlanCacheConfig, PlannerConfig, PlanInput, CacheBreakpoint, CacheCreationPlan, max_of,
  new_planner, planner_config, plan, refusal, finish_plan, breakpoints_of, start_plan,
}
use moon_bridge.Cache.Planner.Breakpoints.{breakpoints-le-max}
use moon_bridge.Anthropic.Caching.{
  Encoding, CacheManager, control_of, mark_tool, mark_block, mark_message, inject_one, inject_all,
  inject_cache_control, plan_cache, plan_and_inject, plan_input, cache_meta, retention_ttl,
  in_range, content_at,
}
use moon_bridge.Anthropic.Caching.Bare.{bare, bare-inject_cache_control}

-- The marks on the tools, the system prompt and the messages.
abbrev pub mark_count : Option CacheControl → ℕ
mark_count none = 0
mark_count (some c) = 1

abbrev pub tool_marks : Tool → ℕ
tool_marks t = mark_count t.cache_control

unfoldable pub block_marks : ContentBlock → ℕ
block_marks (block f inner) = mark_count f.cache_control

abbrev pub message_marks : Message → ℕ
message_marks m = total block_marks m.content

unfoldable pub marks : MessageRequest → ℕ
marks req =
    total tool_marks req.tools + total block_marks req.system + total message_marks req.messages

block_marks-mark_block :
    (c : CacheControl) (b : ContentBlock) → block_marks (mark_block c b) ≤ block_marks b + 1
unfolding block_marks mark_block
block_marks-mark_block c (block f inner) = omega arith

tool_marks-mark_tool : (c : CacheControl) (t : Tool) → tool_marks (mark_tool c t) ≤ tool_marks t + 1
tool_marks-mark_tool c t = omega arith

marks-inject_one :
    (c : CacheControl) (bp : CacheBreakpoint) (req : MessageRequest)
    → marks (inject_one c bp req) ≤ marks req + 1
unfolding marks inject_one
marks-inject_one c bp req = elim (Bool-cases (bp.scope == "tools")) [
  | inl t ↦ rw t (
      omega (
        arith,
        total-set_at tool_marks (mark_tool c) (tool_marks-mark_tool c)
            (in_range bp.scope_index (length req.tools)) req.tools,
      ))
  | inr nt ↦ rw nt (elim (Bool-cases (bp.scope == "system")) [
    | inl s ↦ rw s (
        omega (
          arith,
          total-set_at block_marks (mark_block c) (block_marks-mark_block c)
              (in_range bp.scope_index (length req.system)) req.system,
        ))
    | inr ns ↦ rw ns (elim (Bool-cases (bp.scope == "messages")) [
      | inl m ↦ rw m (
          omega (
            arith,
            total-set_at message_marks (mark_message c bp.content_index)
                (λ x.
                  total-set_at block_marks (mark_block c) (block_marks-mark_block c)
                    (content_at bp.content_index (length x.content)) x.content)
                (in_range bp.scope_index (length req.messages)) req.messages,
          ))
      | inr nm ↦ rw nm (omega arith)
    ])
  ])
]

marks-inject_all :
    (c : CacheControl) (bps : List CacheBreakpoint) (req : MessageRequest)
    → marks (inject_all c bps req) ≤ marks req + length bps
unfolding inject_all
marks-inject_all c [] req = omega arith
marks-inject_all c (bp ∷ bps) req =
    omega (arith, marks-inject_all c bps (inject_one c bp req), marks-inject_one c bp req)

marks-inject_cache_control :
    (p : CacheCreationPlan) (req : MessageRequest)
    → marks (inject_cache_control p req) ≤ marks req + length p.breakpoints
unfolding inject_cache_control marks
marks-inject_cache_control p req = elim (Bool-cases (p.mode == "off")) [
  | inl off ↦ rw off (omega arith)
  | inr on ↦ rw on (elim (Bool-cases (p.mode == "automatic" || p.mode == "hybrid")) [
    | inl a ↦ rw a (
        marks-inject_all (control_of p) p.breakpoints
          (record req { cache_control = some (control_of p) }))
    | inr na ↦ rw na (marks-inject_all (control_of p) p.breakpoints req)
  ])
]

length-finish_plan :
    (sha256_hex : String → String) (cfg : PlannerConfig) (bs : List CacheBreakpoint)
    (start : CacheCreationPlan)
    → start.breakpoints ≡ []
    → length (finish_plan sha256_hex cfg bs start).breakpoints ≤ length bs
unfolding finish_plan
length-finish_plan sha256_hex cfg bs start h = ground arith

length-plan :
    (sha256_hex : String → String) (cfg : PlannerConfig) (reg : Option MemoryRegistry) (now : ℕ)
    (input : PlanInput)
    → length (plan sha256_hex cfg reg now input).breakpoints ≤ max_of cfg
unfolding plan start_plan
length-plan sha256_hex cfg reg now input = elim (Option-cases (refusal cfg input)) [
  | inl go ↦
      rw (go, plan)
        (omega (
          arith,
          length-finish_plan sha256_hex cfg (breakpoints_of cfg input)
              (start_plan sha256_hex cfg reg now input) refl,
          breakpoints-le-max cfg input,
        ))
  | inr (reason, stop) ↦ rw (stop, plan) (omega arith)
]

-- The limit that the defaults of the planner leave as it is.
max_of-new_planner :
    (cfg : PlanCacheConfig) (ttl : String)
    → max_of (new_planner (planner_config cfg ttl)) ≡ max_of cfg.base
unfolding new_planner planner_config
max_of-new_planner cfg ttl = ground arith

-- A plan that `PlanCache` gives has no more breakpoints than the configuration allows.
length-plan_cache :
    (enc : Encoding) (cfg : PlanCacheConfig) (reg : MemoryRegistry) (now : ℕ)
    (key retention : String) (req : MessageRequest) (p : CacheCreationPlan)
    → plan_cache enc cfg reg now key retention req ≡ some p
    → length p.breakpoints ≤ max_of cfg.base
unfolding plan_cache
length-plan_cache enc cfg reg now key retention req p h = ground (
  arith,
  length-plan enc.sha256_hex (new_planner (planner_config cfg (retention_ttl cfg retention)))
      (some reg) now (plan_input enc key req),
  max_of-new_planner cfg (retention_ttl cfg retention),
)

-- `PlanAndInject` changes nothing but cache marks, and adds at most `MaxBreakpoints` of them to
-- the tools, the system prompt and the messages, or 4 where that is zero or negative.
pub plan_and_inject_only_marks :
    (enc : Encoding) (m : CacheManager) (now : ℕ) (extensions : Members) (req : MessageRequest)
    → (bare (plan_and_inject enc m now extensions req).1.1 ≡ bare req)
      × (marks (plan_and_inject enc m now extensions req).1.1 ≤ marks req + max_of m.cache_cfg.base)
unfolding plan_and_inject
plan_and_inject_only_marks enc m now extensions req =
    elim (Option-cases (
      plan_cache enc m.cache_cfg m.registry now (cache_meta "prompt_cache_key" extensions)
        (cache_meta "prompt_cache_retention" extensions) req)) [
          | inl bad ↦ rw (bad, plan_and_inject) (refl, omega arith)
          | inr (p, good) ↦
              rw (good, plan_and_inject)
                (
                  bare-inject_cache_control p req,
                  omega (
                    arith,
                    marks-inject_cache_control p req,
                    length-plan_cache enc m.cache_cfg m.registry now _ _ req p good,
                  ),
                )
        ]
