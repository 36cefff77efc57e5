-- ===== src/Cache/Planner/Modes.antt =====
-- The outcome of `Plan`: its mode, its reasons, and what the registry adds.
use text.Mathlib.TextPositions.{eq_refl}
use moon_bridge.Prelude.{
  ℕ, ◌+◌, ◌<◌, String, ◌≡◌, refl, ◌∙◌, ◌≢◌, ◌⊎◌, inl, inr, Bool, true, false, Option, none, some,
  List, [], ◌∷◌, nat_comparable, string_comparable, arith, Option-cases,
}
use moon_bridge.Prelude.GoMap.{get}
use moon_bridge.Cache.Registry.{RegistryEntry, MemoryRegistry, mark_warming, five_minutes, or_zero}
use moon_bridge.Cache.Registry.Laws.{IsWarming, get-mark_warming}
use moon_bridge.Cache.Planner.{
  PlannerConfig, PlanInput, CacheBreakpoint, CacheCreationPlan, use_automatic, use_explicit,
  refusal, effective_mode, is_live, registry_reason, breakpoints_of, prefix_key_of, start_plan,
  finish_plan, plan,
}

-- What a plan of each mode holds: `off` has neither breakpoints nor a prefix key, `automatic` has
-- no breakpoints, `explicit` and `hybrid` have some.
pub data IsCoherent (p : CacheCreationPlan) : Type 0 where
  off : p.mode ≡ "off" → p.breakpoints ≡ [] → p.prefix_key ≡ "" → IsCoherent p
  automatic : p.mode ≡ "automatic" → p.breakpoints ≡ [] → IsCoherent p
  explicit : p.mode ≡ "explicit" → p.breakpoints ≢ [] → IsCoherent p
  hybrid : p.mode ≡ "hybrid" → p.breakpoints ≢ [] → IsCoherent p

module _ (sha256_hex : String → String) (cfg : PlannerConfig) (reg : Option MemoryRegistry)
    (now : ℕ) (input : PlanInput) where
  finish-IsCoherent :
      (b : Bool) (a : Bool) (bs : List CacheBreakpoint)
      → use_automatic cfg ≡ a
      → use_explicit cfg ≡ b
      → (a ≡ true) ⊎ (b ≡ true)
      → IsCoherent (finish_plan sha256_hex cfg bs (start_plan sha256_hex cfg reg now input))
  unfolding finish_plan start_plan effective_mode
  finish-IsCoherent false false bs ea eb h = ground arith
  finish-IsCoherent false true bs ea eb h = rw eb (rw ea (automatic refl refl))
  finish-IsCoherent true false [] ea eb h = rw eb (rw ea (off refl refl refl))
  finish-IsCoherent true true [] ea eb h = rw eb (rw ea (automatic refl refl))
  finish-IsCoherent true false (b ∷ bs) ea eb h = rw eb (rw ea (explicit refl (λ e. cc)))
  finish-IsCoherent true true (b ∷ bs) ea eb h = rw eb (rw ea (hybrid refl (λ e. cc)))

  refusal-none : refusal cfg input ≡ none → (use_automatic cfg ≡ true) ⊎ (use_explicit cfg ≡ true)
  unfolding refusal
  refusal-none h = ground arith

  -- Every plan is coherent: its mode is one of four, and says whether it holds breakpoints; a
  -- plan that is off has no prefix key either.
  pub plan-IsCoherent : IsCoherent (plan sha256_hex cfg reg now input)
  unfolding plan
  plan-IsCoherent = elim (Option-cases (refusal cfg input)) [
    | inl go ↦
        rw (go, plan)
          (finish-IsCoherent (use_explicit cfg) (use_automatic cfg) (breakpoints_of cfg input) refl
            refl (refusal-none go))
    | inr (reason, stop) ↦ rw (stop, plan) (off refl refl refl)
  ]

  plan_go :
      refusal cfg input ≡ none
      → plan sha256_hex cfg reg now input
        ≡ finish_plan sha256_hex cfg
            (breakpoints_of cfg input)
            (start_plan sha256_hex cfg reg now input)
  unfolding plan
  plan_go h = rw (h, plan)

  -- When nothing refuses the plan, and there are breakpoints or explicit ones are not in use, its
  -- reason is what the registry says of its prefix key, and the key is that of the input.
  pub plan-reason :
      refusal cfg input ≡ none
      → (use_explicit cfg ≡ false) ⊎ (breakpoints_of cfg input ≢ [])
      → ((plan sha256_hex cfg reg now input).reason
          ≡ registry_reason reg (prefix_key_of sha256_hex input cfg.ttl) now)
        × ((plan sha256_hex cfg reg now input).prefix_key ≡ prefix_key_of sha256_hex input cfg.ttl)
  plan-reason go (inl auto) =
      rw (plan_go go) (unfold finish_plan start_plan in rw auto (refl, refl))
  plan-reason go (inr some_bs) = rw (plan_go go) (unfold finish_plan start_plan in ground arith)

reason_live :
    (reg : MemoryRegistry) (e : RegistryEntry) (key : String) (now : ℕ)
    → get key reg ≡ some e
    → is_live now e ≡ true
    → registry_reason (some reg) key now ≡ "registry_warm"
unfolding registry_reason
reason_live reg e key now found live = rw (found, registry_reason) (rw live)

is_live-IsWarming :
    {t now : ℕ} {old e : RegistryEntry}
    → IsWarming t old e
    → now < t + five_minutes
    → is_live now e ≡ true
unfolding is_live
is_live-IsWarming {t} {now} {old} {e} w h = rw w.state (ground (arith, w.lives))

-- After `MarkWarming` of the prefix key of an input, every plan for it in the next five minutes
-- has the reason "registry_warm", unless it is refused, or explicit breakpoints are in use and
-- there are none.
pub plan-mark_warming :
    (sha256_hex : String → String) (cfg : PlannerConfig) (reg : MemoryRegistry) (t now : ℕ)
    (input : PlanInput)
    → refusal cfg input ≡ none
    → (use_explicit cfg ≡ false) ⊎ (breakpoints_of cfg input ≢ [])
    → now < t + five_minutes
    → (plan sha256_hex cfg
        (some (mark_warming (prefix_key_of sha256_hex input cfg.ttl) t reg))
        now
        input).reason
      ≡ "registry_warm"
plan-mark_warming sha256_hex cfg reg t now input go bs soon =
    let key = prefix_key_of sha256_hex input cfg.ttl in
    let (e, w, found) = get-mark_warming key key t reg in
    (plan-reason sha256_hex cfg (some (mark_warming key t reg)) now input go bs).0
    ∙ reason_live (mark_warming key t reg) e key now (found ∙ rw eq_refl)
        (is_live-IsWarming {old = or_zero (get key reg)} w soon)
