-- ===== src/Cache/Tests.antt =====
-- The cache planner and its registry at concrete inputs.

use mathlib.Core.List.{Sublistᴰ}
use moon_bridge.Prelude.{
  ℕ, zero, suc, ◌+◌, ◌≤◌, min, String, ◌≡◌, refl, sym, ap, ◌∙◌, ◌≢◌, ◌⊎◌, inl, inr, Bool, true,
  false, Option, none, some, List, [], ◌∷◌, if◌then◌else◌, ◌==◌, nat_comparable, string_comparable,
  length, arith,
}
use moon_bridge.Prelude.Int.{ℤ, pos, negsuc}
use moon_bridge.Prelude.GoMap.{get}
use moon_bridge.Cache.Registry.{
  warm, UsageSignals, RegistryEntry, MemoryRegistry, zero_entry, reset_warming, mark_warming,
}
use moon_bridge.Cache.Registry.Laws.{
  set, update, mark, reset, run_ops, IsFiled, run_ops-IsFiled, reset_warming-mark_warming,
}
use moon_bridge.Cache.Select.{Candidates, MessageBreakpointCandidate, evenly_spaced, select, itoa}
use moon_bridge.Cache.Select.Spacing.{evenly_spaced_lem}
use moon_bridge.Cache.Select.Chosen.{PathsDistinct, select_exact}
use moon_bridge.Cache.Planner.{
  PlannerConfig, PlanInput, new_planner, max_of, breakpoints_of, refusal, use_explicit,
  prefix_key_of, registry_reason, plan,
}
use moon_bridge.Cache.Planner.Breakpoints.{breakpoints-le-max, IsLayout, breakpoints-IsLayout}
use moon_bridge.Cache.Planner.Modes.{IsCoherent, plan-IsCoherent, plan-mark_warming}

abbrev usage : UsageSignals
usage = record {
  input_tokens = pos 2000;
  cache_creation_input_tokens = pos 1500;
  cache_read_input_tokens = pos 0;
}

abbrev warm_entry : RegistryEntry
warm_entry = record zero_entry { state = warm; local_key = "a"; created_at = 5; expires_at = 900 }

abbrev one_warm : MemoryRegistry
one_warm = ("a", warm_entry) ∷ []

empty-IsFiled : IsFiled []
empty-IsFiled = record { at_key = λ k e h. absurd (unfold get in ground arith) }

run_ops-IsFiled_example :
    IsFiled (
      run_ops
        (set warm_entry ∷ mark "b" 7 ∷ update "b" usage (pos 2000) none 9 ∷ reset "a" ∷ [])
        [])
run_ops-IsFiled_example =
    run_ops-IsFiled
      (set warm_entry ∷ mark "b" 7 ∷ update "b" usage (pos 2000) none 9 ∷ reset "a" ∷ [])
      empty-IsFiled

reset_warming-mark_warming_example :
    get "a" (reset_warming "a" (mark_warming "a" 10 one_warm))
    ≡ (if (◌==◌ {K = String} "a" "a") then none else get "a" one_warm)
reset_warming-mark_warming_example = reset_warming-mark_warming "a" "a" 10 one_warm

abbrev candidate : ℕ → String → String → MessageBreakpointCandidate
candidate i path role = record {
  message_index = i;
  content_index = pos 0;
  block_path = path;
  hash = path;
  role = role;
}

abbrev four : Candidates
four =
    candidate 0 "m0" "user"
    ∷ candidate 1 "m1" "assistant"
    ∷ candidate 2 "m2" "user"
    ∷ candidate 3 "m3" "assistant"
    ∷ []

evenly_spaced_lem_example :
    (length (evenly_spaced four 2) ≡ min 2 (length four)) × Sublistᴰ (evenly_spaced four 2) four
evenly_spaced_lem_example = evenly_spaced_lem four 2

four-PathsDistinct : PathsDistinct four
unfolding moon_bridge.Cache.Select.has_path
four-PathsDistinct = (refl, (refl, (refl, (refl, tt))))

select_exact_example :
    (length (select four 3) ≡ min 3 (length four)) × PathsDistinct (select four 3)
select_exact_example = select_exact four 3 four-PathsDistinct

abbrev config : PlannerConfig
config = record {
  mode = "automatic";
  ttl = "5m";
  prompt_caching = true;
  automatic_prompt_cache = true;
  explicit_cache_breakpoints = true;
  max_breakpoints = pos 3;
  min_cache_tokens = pos 1024;
  expected_reuse = pos 2;
  minimum_value_score = pos 100;
  min_breakpoint_tokens = pos 0;
}

abbrev input : PlanInput
input = record {
  provider_id = "p";
  upstream_workspace = "w";
  upstream_api_key_id = "k";
  model = "m";
  prompt_cache_key = "";
  tools_hash = "t";
  system_hash = "s";
  message_prefix_hash = "h";
  message_breakpoints = four;
  tool_count = 2;
  system_block_count = 1;
  message_count = 4;
  estimated_tokens = 5000;
  estimated_tool_tokens = 2000;
  estimated_system_tokens = 100;
}

-- A stand-in for the hash, which the planner only compares and passes on.
abbrev no_hash : String → String
no_hash text = text

breakpoints-le-max_example : length (breakpoints_of config input) ≤ max_of config
breakpoints-le-max_example = breakpoints-le-max config input

breakpoints-IsLayout_example : IsLayout config.ttl (breakpoints_of config input)
breakpoints-IsLayout_example = breakpoints-IsLayout config input

plan-IsCoherent_example : IsCoherent (plan no_hash config (some one_warm) 20 input)
plan-IsCoherent_example = plan-IsCoherent no_hash config (some one_warm) 20 input

-- The tools and the system prompt leave no room for messages.
abbrev narrow : PlannerConfig
narrow = record config { max_breakpoints = pos 2 }

not_refused : refusal narrow input ≡ none
unfolding refusal moon_bridge.Prelude.Int.◌*ℤ◌
not_refused = refl

two_breakpoints : length (breakpoints_of narrow input) ≡ 2
unfolding breakpoints_of moon_bridge.Cache.Planner.fixed_breakpoints
    moon_bridge.Cache.Planner.add_scope moon_bridge.Cache.Planner.add
two_breakpoints = refl

has_breakpoints : breakpoints_of narrow input ≢ []
has_breakpoints e = let n = sym two_breakpoints ∙ ap length e in absurd (omega arith)

plan-mark_warming_example :
    (plan no_hash narrow
      (some (mark_warming (prefix_key_of no_hash input narrow.ttl) 20 one_warm))
      30
      input).reason
    ≡ "registry_warm"
plan-mark_warming_example =
    plan-mark_warming no_hash narrow one_warm 20 30 input not_refused (inr has_breakpoints)
      (omega arith)

spaced : evenly_spaced four 2 ≡ candidate 1 "m1" "assistant" ∷ candidate 3 "m3" "assistant" ∷ []
unfolding evenly_spaced
spaced = refl
