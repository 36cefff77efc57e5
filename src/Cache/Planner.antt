-- ===== src/Cache/Planner.antt =====
-- internal/protocol/cache/planner.go: `NewPlannerWithRegistry`, `Plan`, `breakpoints` and the keys,
-- with `PlannerConfig` and `UpdateRegistryFromUsage` of internal/protocol/cache/exported.go. SHA-256
-- with its hexadecimal form is a parameter. Counts and estimates of an input are lengths and
-- estimates, never negative; the settings of a configuration are integers.
pub mod Breakpoints
pub mod Modes
use Prim.Native.Char.{nul}
use Prim.Native.String.{◌++◌ as append}
use moon_bridge.Prelude.{
  ℕ, zero, suc, ◌+◌, ◌-◌, String, Bool, true, false, not, ◌&&◌, ◌||◌, Option, none, some, List, [],
  ◌∷◌, ◌++◌, leb, ltb, if◌then◌else◌, ◌==◌, nat_comparable, string_comparable, length, is_empty,
}
use moon_bridge.Prelude.Int.{ℤ, pos, negsuc, ltb_ℤ, ◌*ℤ◌}
use moon_bridge.Prelude.GoMap.{get}
use moon_bridge.Cache.Registry.{
  State, warming, warm, RegistryEntry, MemoryRegistry, UsageSignals, update_from_usage,
}
use moon_bridge.Cache.Select.{Candidates, itoa, candidates_of, select, MessageBreakpointCandidate}

pub record PlannerConfig : Type 0 where
  pub mode : String
  pub ttl : String
  pub prompt_caching : Bool
  pub automatic_prompt_cache : Bool
  pub explicit_cache_breakpoints : Bool
  pub max_breakpoints : ℤ
  pub min_cache_tokens : ℤ
  pub expected_reuse : ℤ
  pub minimum_value_score : ℤ
  pub min_breakpoint_tokens : ℤ

-- `PlanCacheConfig` has one more setting, which the planner does not read.
pub record PlanCacheConfig : Type 0 where
  pub base : PlannerConfig
  pub allow_retention_downgrade : Bool

pub record PlanInput : Type 0 where
  pub provider_id : String
  pub upstream_workspace : String
  pub upstream_api_key_id : String
  pub model : String
  pub prompt_cache_key : String
  pub tools_hash : String
  pub system_hash : String
  pub message_prefix_hash : String
  pub message_breakpoints : Candidates
  pub tool_count : ℕ
  pub system_block_count : ℕ
  pub message_count : ℕ
  pub estimated_tokens : ℕ
  pub estimated_tool_tokens : ℕ
  pub estimated_system_tokens : ℕ

pub record CacheBreakpoint : Type 0 where
  pub scope : String
  pub block_path : String
  pub ttl : String
  pub hash : String
  pub scope_index : ℕ
  pub content_index : ℤ

pub record CacheCreationPlan : Type 0 where
  pub mode : String
  pub ttl : String
  pub local_key : String
  pub prefix_key : String
  pub breakpoints : List CacheBreakpoint
  pub warm_policy : String
  pub reason : String

-- `PlanCacheConfig.PlannerConfig`
unfoldable pub planner_config : PlanCacheConfig → String → PlannerConfig
planner_config cfg ttl =
    let base = cfg.base in record base { ttl = if ttl == "" then base.ttl else ttl }

abbrev pub is_zero : ℤ → Bool
is_zero (pos n) = n == 0
is_zero (negsuc n) = false

abbrev pub or_text : String → String → String
or_text value fallback = if value == "" then fallback else value

-- The defaults of `NewPlannerWithRegistry`.
unfoldable pub new_planner : PlannerConfig → PlannerConfig
new_planner cfg = record cfg {
  mode = or_text cfg.mode "automatic";
  ttl = or_text cfg.ttl "5m";
  max_breakpoints = if is_zero cfg.max_breakpoints then pos 4 else cfg.max_breakpoints;
  expected_reuse = if is_zero cfg.expected_reuse then pos 1 else cfg.expected_reuse;
}

-- A setting, or its default where it is zero or negative.
abbrev pub positive_or : ℕ → ℤ → ℕ
positive_or d (pos n) = if ltb 0 n then n else d
positive_or d (negsuc n) = d

-- `maxBreakpoints` and `minBP` of `breakpoints`
abbrev pub max_of : PlannerConfig → ℕ
max_of cfg = positive_or 4 cfg.max_breakpoints

abbrev pub min_bp : PlannerConfig → ℕ
min_bp cfg = positive_or 1024 cfg.min_breakpoint_tokens

-- The closure `add`.
unfoldable pub add : ℕ → CacheBreakpoint → List CacheBreakpoint → List CacheBreakpoint
add max_breakpoints b bs =
    if leb max_breakpoints (length bs) || b.hash == "" then bs else bs ++ b ∷ []

-- `skip`: there are tokens, and fewer than a breakpoint needs.
abbrev pub too_small : ℕ → ℕ → Bool
too_small tokens least = ltb 0 tokens && ltb tokens least

-- The breakpoint behind the last of `count` tools or system blocks.
abbrev pub last_of : String → String → String → ℕ → CacheBreakpoint
last_of scope ttl hash last = record {
  scope = scope;
  block_path = append scope (append "[" (append (itoa last) "]"));
  ttl = ttl;
  hash = hash;
  scope_index = last;
  content_index = negsuc 0;
}

-- The block for the tools, and the one for the system prompt.
unfoldable pub add_scope :
    ℕ → String → String → String → ℕ → Bool → List CacheBreakpoint → List CacheBreakpoint
add_scope most scope ttl hash zero skip bs = bs
add_scope most scope ttl hash (suc last) skip bs =
    if skip then bs else add most (last_of scope ttl hash last) bs

abbrev pub of_candidate : String → String → MessageBreakpointCandidate → CacheBreakpoint
of_candidate ttl fallback c = record {
  scope = "messages";
  block_path = c.block_path;
  ttl = ttl;
  hash = or_text c.hash fallback;
  scope_index = c.message_index;
  content_index = c.content_index;
}

-- The loop over the selected candidates.
unfoldable pub add_messages :
    ℕ → String → String → Candidates → List CacheBreakpoint → List CacheBreakpoint
add_messages most ttl fallback [] bs = bs
add_messages most ttl fallback (c ∷ cs) bs =
    add_messages most ttl fallback cs (add most (of_candidate ttl fallback c) bs)

-- The breakpoints for the tools and the system prompt.
unfoldable pub fixed_breakpoints : PlannerConfig → PlanInput → List CacheBreakpoint
fixed_breakpoints cfg input =
    let tools =
      add_scope (max_of cfg) "tools" cfg.ttl input.tools_hash input.tool_count
        (too_small input.estimated_tool_tokens (min_bp cfg)) [] in
    add_scope (max_of cfg) "system" cfg.ttl input.system_hash input.system_block_count
      (too_small (input.estimated_tool_tokens + input.estimated_system_tokens) (min_bp cfg)) tools

-- `breakpoints`
unfoldable pub breakpoints_of : PlannerConfig → PlanInput → List CacheBreakpoint
breakpoints_of cfg input =
    let bs = fixed_breakpoints cfg input in
    let candidates =
      candidates_of input.message_breakpoints input.message_count input.message_prefix_hash in
    if ltb 0 (max_of cfg - length bs)
    then add_messages (max_of cfg) cfg.ttl input.message_prefix_hash
        (select candidates (max_of cfg - length bs)) bs
    else bs

-- `effectiveMode`
unfoldable pub effective_mode : Bool → Bool → String
effective_mode true true = "hybrid"
effective_mode true false = "automatic"
effective_mode false true = "explicit"
effective_mode false false = "off"

-- `strings.Join(parts, "\x00")`
pub join_nul : List String → String
join_nul [] = ""
join_nul (p ∷ []) = p
join_nul (p ∷ q ∷ ps) = append p (String.◌∷◌ nul (join_nul (q ∷ ps)))

-- What the mode and the switches allow.
abbrev pub use_automatic : PlannerConfig → Bool
use_automatic cfg = cfg.automatic_prompt_cache && (cfg.mode == "automatic" || cfg.mode == "hybrid")

abbrev pub use_explicit : PlannerConfig → Bool
use_explicit cfg =
    cfg.explicit_cache_breakpoints
    && (cfg.mode == "automatic" || cfg.mode == "explicit" || cfg.mode == "hybrid")

-- The plan that caches nothing.
abbrev pub off_plan : PlannerConfig → String → String → CacheCreationPlan
off_plan cfg key reason = record {
  mode = "off";
  ttl = cfg.ttl;
  local_key = key;
  prefix_key = "";
  breakpoints = [];
  warm_policy = "";
  reason = reason;
}

-- The early returns of `Plan`, with the reason that each gives.
unfoldable pub refusal : PlannerConfig → PlanInput → Option String
refusal cfg input =
    if not cfg.prompt_caching || cfg.mode == "off"
    then some "prompt_caching_disabled"
    else if ltb_ℤ (pos 0) cfg.min_cache_tokens
        && ltb 0 input.estimated_tokens
        && ltb_ℤ (pos input.estimated_tokens) cfg.min_cache_tokens
    then some "below_min_cache_tokens"
    else if ltb_ℤ (pos 0) cfg.minimum_value_score
        && ltb_ℤ (pos input.estimated_tokens *ℤ cfg.expected_reuse) cfg.minimum_value_score
    then some "below_minimum_value_score"
    else if not (use_automatic cfg) && not (use_explicit cfg)
    then some "cache_controls_disabled"
    else none

abbrev pub live_state : State → Bool
live_state warm = true
live_state warming = true
live_state _ = false

-- An entry that is warm or warming and has not expired.
unfoldable pub is_live : ℕ → RegistryEntry → Bool
is_live now entry = live_state entry.state && (entry.expires_at == 0 || ltb now entry.expires_at)

-- What the registry says of a key; without a registry, nothing.
unfoldable pub registry_reason : Option MemoryRegistry → String → ℕ → String
registry_reason none key now = ""
registry_reason (some reg) key now = elim (get key reg) [
  | none ↦ ""
  | some entry ↦ if is_live now entry then "registry_warm" else ""
]

module _ (sha256_hex : String → String) where
  -- `localKey` and `prefixKey`
  unfoldable pub local_key_of : PlanInput → String → String
  unfolding join_nul
  local_key_of input ttl = sha256_hex (
      join_nul (
        input.provider_id ∷ input.upstream_workspace ∷ input.upstream_api_key_id ∷ input.model ∷ ttl
        ∷ input.prompt_cache_key ∷ input.tools_hash ∷ input.system_hash ∷ input.message_prefix_hash
        ∷ []))

  unfoldable pub prefix_key_of : PlanInput → String → String
  unfolding join_nul
  prefix_key_of input ttl = sha256_hex (
      join_nul (
        input.provider_id ∷ input.upstream_workspace ∷ input.upstream_api_key_id ∷ input.model ∷ ttl
        ∷ input.prompt_cache_key ∷ input.tools_hash ∷ input.system_hash ∷ []))

  -- The plan before its breakpoints.
  unfoldable pub start_plan :
      PlannerConfig → Option MemoryRegistry → ℕ → PlanInput → CacheCreationPlan
  start_plan cfg registry now input =
      let key = prefix_key_of input cfg.ttl in
      record {
        mode = effective_mode (use_automatic cfg) (use_explicit cfg);
        ttl = cfg.ttl;
        local_key = local_key_of input cfg.ttl;
        prefix_key = key;
        breakpoints = [];
        warm_policy = "none";
        reason = registry_reason registry key now;
      }

  -- The last part of `Plan`: explicit breakpoints, and what is done when there are none.
  unfoldable pub finish_plan :
      PlannerConfig → List CacheBreakpoint → CacheCreationPlan → CacheCreationPlan
  finish_plan cfg bs start =
      if not (use_explicit cfg)
      then start
      else if not (is_empty bs)
      then record start { breakpoints = bs }
      else if use_automatic cfg
      then record start { mode = "automatic"; reason = "no_stable_breakpoints" }
      else off_plan cfg start.local_key "no_stable_breakpoints"

  -- `Plan`
  unfoldable pub plan : PlannerConfig → Option MemoryRegistry → ℕ → PlanInput → CacheCreationPlan
  plan cfg registry now input = elim (refusal cfg input) [
    | some reason ↦ off_plan cfg "" reason
    | none ↦ finish_plan cfg (breakpoints_of cfg input) (start_plan cfg registry now input)
  ]

-- `UpdateRegistryFromUsage`, for the duration that `ParseTTL` reads from the plan.
unfoldable pub update_registry :
    Option MemoryRegistry → CacheCreationPlan → UsageSignals → ℤ → ℤ → ℕ → Option MemoryRegistry
update_registry none p signals input_tokens ttl now = none
update_registry (some reg) p signals input_tokens ttl now =
    let key = or_text p.prefix_key p.local_key in
    some (if key == "" then reg else update_from_usage key signals input_tokens (some ttl) now reg)
