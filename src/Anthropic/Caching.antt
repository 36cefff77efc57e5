-- ===== src/Anthropic/Caching.antt =====
-- internal/protocol/anthropic/cache.go: the cache plan of a request, and its marks on the request. JSON
-- with SHA-256 and the estimates of tokens, which encode whole parts of a request, are parameters, and
-- so is `time.ParseDuration`.
pub mod Bare
pub mod Marks
use Prim.Native.String.{◌++◌ as append}
use moon_bridge.Prelude.{
  ℕ, suc, ◌+◌, ◌-◌, String, Bool, not, ◌&&◌, ◌||◌, Option, none, some, List, [], ◌∷◌, if◌then◌else◌,
  ◌==◌, ltb, leb, nat_comparable, string_comparable, length,
}
use moon_bridge.Prelude.Int.{ℤ, pos, negsuc}
use moon_bridge.Prelude.Updates.{set_at}
use moon_bridge.ModelRef.{trim_space}
use moon_bridge.Format.Json.{Members, lookup, text_of, members_of}
use moon_bridge.Cache.Registry.{MemoryRegistry}
use moon_bridge.Cache.Select.{itoa, MessageBreakpointCandidate}
use moon_bridge.Cache.Planner.{
  PlanCacheConfig, PlanInput, CacheBreakpoint, CacheCreationPlan, planner_config, new_planner, plan,
  off_plan, update_registry,
}
use moon_bridge.Anthropic.Types.{
  CacheControl, ContentBlock, block, fields, Message, Tool, Usage, MessageRequest,
}

-- What the encoding of requests gives: hashes, estimates of tokens, and durations.
pub record Encoding : Type 0 where
  pub sha256_hex : String → String
  pub tools_hash : List Tool → String
  pub system_hash : List ContentBlock → String
  pub messages_hash : List Message → String
  pub request_tokens : MessageRequest → ℕ
  pub tools_tokens : List Tool → ℕ
  pub system_tokens : List ContentBlock → ℕ
  pub parse_ttl : String → ℤ

-- `adapterCacheManager`
pub record CacheManager : Type 0 where
  pub cache_cfg : PlanCacheConfig
  pub registry : MemoryRegistry

-- A text block that holds white space alone.
abbrev pub is_blank : ContentBlock → Bool
is_blank b = (fields b).kind == "text" && trim_space ((fields b).text) == ""

-- `lastCacheableContentIndex`, for blocks that begin at index `i`; none stands for -1.
unfoldable pub last_cacheable : ℕ → List ContentBlock → Option ℕ
last_cacheable i [] = none
last_cacheable i (b ∷ bs) = elim (last_cacheable (suc i) bs) [
  | some j ↦ some j
  | none ↦ if is_blank b then none else some i
]

abbrev pub block_path : ℕ → ℕ → ℕ → String
block_path message content count = append "messages[" (
    append (itoa message)
      (append "].content[" (if content + 1 == count then "last]" else append (itoa content) "]")))

-- `CacheMessageBreakpointCandidates`, for messages that begin at index `i`.
unfoldable pub candidates_from : ℕ → List Message → List MessageBreakpointCandidate
candidates_from i [] = []
candidates_from i (m ∷ ms) =
    let rest = candidates_from (suc i) ms in
    elim (last_cacheable 0 m.content) [
      | none ↦ rest
      | some c ↦
          record {
            message_index = i;
            content_index = pos c;
            block_path = block_path i c (length m.content);
            hash = "";
            role = m.role;
          }
          ∷ rest
    ]

-- The time to live that the retention asks for.
abbrev pub retention_ttl : PlanCacheConfig → String → String
retention_ttl cfg retention =
    if retention == "24h" && cfg.allow_retention_downgrade
    then "1h"
    else if retention == "in_memory"
    then "5m"
    else cfg.base.ttl

module _ (enc : Encoding) where
  -- The input of the planner.
  unfoldable pub plan_input : String → MessageRequest → PlanInput
  plan_input cache_key req = record {
    provider_id = "anthropic";
    upstream_workspace = "";
    upstream_api_key_id = "configured-provider-key";
    model = req.model;
    prompt_cache_key = cache_key;
    tools_hash = enc.tools_hash req.tools;
    system_hash = enc.system_hash req.system;
    message_prefix_hash = enc.messages_hash req.messages;
    message_breakpoints = candidates_from 0 req.messages;
    tool_count = length req.tools;
    system_block_count = length req.system;
    message_count = length req.messages;
    estimated_tokens = enc.request_tokens req;
    estimated_tool_tokens = enc.tools_tokens req.tools;
    estimated_system_tokens = enc.system_tokens req.system;
  }

  -- `PlanCache`; none is the error for a retention that Anthropic does not support.
  unfoldable pub plan_cache :
      PlanCacheConfig
      → MemoryRegistry
      → ℕ
      → String
      → String
      → MessageRequest
      → Option CacheCreationPlan
  plan_cache cfg registry now cache_key retention req =
      if retention == "24h" && not cfg.allow_retention_downgrade
      then none
      else some (
          plan enc.sha256_hex (new_planner (planner_config cfg (retention_ttl cfg retention)))
            (some registry) now (plan_input cache_key req))

abbrev pub control_of : CacheCreationPlan → CacheControl
control_of p = record { kind = "ephemeral"; ttl = if p.ttl == "1h" then "1h" else "" }

-- An index that is out of range means the last one.
abbrev pub in_range : ℕ → ℕ → ℕ
in_range index count = if leb count index then count - 1 else index

abbrev pub mark_tool : CacheControl → Tool → Tool
mark_tool c t = record t { cache_control = some c }

unfoldable pub mark_block : CacheControl → ContentBlock → ContentBlock
mark_block c (block f content) = block (record f { cache_control = some c }) content

-- Where the mark of a message goes: the index that is given, or the last.
abbrev pub content_at : ℤ → ℕ → ℕ
content_at (pos i) count = if ltb i count then i else count - 1
content_at (negsuc i) count = count - 1

abbrev pub mark_message : CacheControl → ℤ → Message → Message
mark_message c index m = record m {
  content = set_at (mark_block c) (content_at index (length m.content)) m.content;
}

-- One round of the loop of `InjectCacheControl`; an update of an empty list does nothing.
unfoldable pub inject_one : CacheControl → CacheBreakpoint → MessageRequest → MessageRequest
inject_one c bp req =
    if bp.scope == "tools"
    then record req {
      tools = set_at (mark_tool c) (in_range bp.scope_index (length req.tools)) req.tools;
    }
    else if bp.scope == "system"
    then record req {
      system = set_at (mark_block c) (in_range bp.scope_index (length req.system)) req.system;
    }
    else if bp.scope == "messages"
    then record req {
      messages =
          set_at (mark_message c bp.content_index) (in_range bp.scope_index (length req.messages))
            req.messages;
    }
    else req

unfoldable pub inject_all : CacheControl → List CacheBreakpoint → MessageRequest → MessageRequest
inject_all c [] req = req
inject_all c (bp ∷ bps) req = inject_all c bps (inject_one c bp req)

-- `InjectCacheControl`
unfoldable pub inject_cache_control : CacheCreationPlan → MessageRequest → MessageRequest
inject_cache_control p req =
    if p.mode == "off"
    then req
    else inject_all (control_of p) p.breakpoints (
        if p.mode == "automatic" || p.mode == "hybrid"
        then record req { cache_control = some (control_of p) }
        else req)

-- `extensions["cache"][key]`
abbrev pub cache_meta : String → Members → String
cache_meta key extensions = elim (members_of (lookup "cache" extensions)) [
  | none ↦ ""
  | some meta ↦ text_of (lookup key meta)
]

module _ (enc : Encoding) where
  -- `PlanAndInject`, on the extensions of the core request: the prefix key, the time to live, and the
  -- request with its marks. An error leaves the request as it is.
  unfoldable pub plan_and_inject :
      CacheManager → ℕ → Members → MessageRequest → String × (String × MessageRequest)
  plan_and_inject m now extensions req =
      elim (plan_cache enc m.cache_cfg m.registry now (cache_meta "prompt_cache_key" extensions)
        (cache_meta "prompt_cache_retention" extensions) req) [
          | none ↦ ("", ("", req))
          | some p ↦ (p.prefix_key, (p.ttl, inject_cache_control p req))
        ]

  -- `UpdateRegistry`
  unfoldable pub update_cache : CacheManager → String → String → Usage → ℕ → CacheManager
  update_cache m key ttl usage now =
      if key == ""
      then m
      else elim (update_registry (some m.registry)
          (record (off_plan (new_planner (planner_config m.cache_cfg ttl)) "" "") {
            prefix_key = key;
            ttl = ttl;
          })
          (record {
            input_tokens = usage.input_tokens;
            cache_creation_input_tokens = usage.cache_creation_input_tokens;
            cache_read_input_tokens = usage.cache_read_input_tokens;
          })
          usage.input_tokens (enc.parse_ttl ttl) now) [
            | none ↦ m
            | some r ↦ record m { registry = r }
          ]
