-- ===== src/Anthropic/Request/Built.antt =====
-- What `FromCoreRequest` returns: an error, or a request that the Messages API takes.
use moon_bridge.Prelude.{ℕ, ◌+◌, ◌≤◌, ◌≡◌, string_comparable, none, some, All}
use moon_bridge.Prelude.Int.{ℤ, pos, ◌≤ℤ◌}
use moon_bridge.Cache.Planner.{max_of}
use moon_bridge.Format.Messages.{CoreRequest}
use moon_bridge.Anthropic.Types.{Tool, MessageRequest}
use moon_bridge.Anthropic.Schema.Clean.{AreClean}
use moon_bridge.Anthropic.Caching.{CacheManager}
use moon_bridge.Anthropic.Caching.Bare.{bare}
use moon_bridge.Anthropic.Caching.Marks.{marks}
use moon_bridge.Anthropic.Request.{
  Converted, nil_request, nil_cache_manager, converted, build_request,
}
use moon_bridge.Anthropic.Request.Merging.{AreMerged}

-- A schema is there, and clean.
abbrev pub HasSchema : Tool → Type 0
HasSchema t = elim t.input_schema [ none ↦ ⊥ | some ms ↦ AreClean ms ]

-- The request `r` is what step 2 builds, with marks of the cache added.
pub record IsBuilt (cfg_max_tokens : ℤ) (most : ℕ) (req : CoreRequest) (r : MessageRequest)
    : Type 0 where
  pub same : bare r ≡ bare (build_request cfg_max_tokens req)
  pub bounded : marks r ≤ marks (build_request cfg_max_tokens req) + most
  pub merged : AreMerged r.messages
  pub positive : pos 1 ≤ℤ r.max_tokens
  pub schemas : All HasSchema r.tools

-- What a conversion without an error means.
abbrev pub Succeeds : ℤ → CacheManager → CoreRequest → Converted → Type 0
Succeeds cfg m req result = elim result [
  | nil_request ↦ ⊥
  | nil_cache_manager ↦ ⊥
  | converted r ↦ IsBuilt cfg (max_of m.cache_cfg.base) req r
]
