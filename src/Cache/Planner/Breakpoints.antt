-- ===== src/Cache/Planner/Breakpoints.antt =====
-- The breakpoints of a plan: how many there are, what each holds and in which order they stand.
use text.Mathlib.TextEquality.{eq_iff}
use mathlib.Core.List.{append-nil, append_assoc}
use moon_bridge.Prelude.{
  ℕ, zero, suc, ◌+◌, ◌-◌, ◌≤◌, String, ◌≡◌, refl, sym, ◌∙◌, ◌≢◌, inl, inr, Bool, true, false, List,
  [], ◌∷◌, ◌++◌, leb, ltb, ◌==◌, nat_comparable, string_comparable, length, All, All-append, arith,
  Bool-cases, length-append,
}
use moon_bridge.Cache.Select.{Candidates, candidates_of, select}
use moon_bridge.Cache.Planner.{
  PlannerConfig, PlanInput, CacheBreakpoint, max_of, min_bp, too_small, add, last_of, add_scope,
  of_candidate, add_messages, fixed_breakpoints, breakpoints_of,
}

-- Within the bound, one more breakpoint keeps the list within it.
length-add :
    (m : ℕ) (b : CacheBreakpoint) (bs : List CacheBreakpoint)
    → length bs ≤ m
    → length (add m b bs) ≤ m
unfolding add
length-add m b bs h = ground (arith, length-append bs (b ∷ []))

length-add_scope :
    (m : ℕ) (scope ttl hash : String) (n : ℕ) (skip : Bool) (bs : List CacheBreakpoint)
    → length bs ≤ m
    → length (add_scope m scope ttl hash n skip bs) ≤ m
unfolding add_scope
length-add_scope m scope ttl hash zero skip bs h = h
length-add_scope m scope ttl hash (suc n) true bs h = h
length-add_scope m scope ttl hash (suc n) false bs h = length-add m (last_of scope ttl hash n) bs h

length-add_messages :
    (m : ℕ) (ttl fallback : String) (cs : Candidates) (bs : List CacheBreakpoint)
    → length bs ≤ m
    → length (add_messages m ttl fallback cs bs) ≤ m
unfolding add_messages
length-add_messages m ttl fallback [] bs h = h
length-add_messages m ttl fallback (c ∷ cs) bs h =
    length-add_messages m ttl fallback cs _ (length-add m (of_candidate ttl fallback c) bs h)

-- There are never more breakpoints than `MaxBreakpoints`, or than 4 where that is zero or
-- negative.
pub breakpoints-le-max :
    (cfg : PlannerConfig) (input : PlanInput) → length (breakpoints_of cfg input) ≤ max_of cfg
unfolding breakpoints_of fixed_breakpoints
breakpoints-le-max cfg input =
    let tools =
      length-add_scope (max_of cfg) "tools" cfg.ttl input.tools_hash input.tool_count
        (too_small input.estimated_tool_tokens (min_bp cfg)) [] (omega arith) in
    let fixed =
      length-add_scope (max_of cfg) "system" cfg.ttl input.system_hash input.system_block_count
        (too_small (input.estimated_tool_tokens + input.estimated_system_tokens) (min_bp cfg)) _
        tools in
    elim (Bool-cases (ltb 0 (max_of cfg - length (fixed_breakpoints cfg input)))) [
      | inl room ↦ rw room (length-add_messages _ _ _ (select _ _) _ fixed)
      | inr full ↦ rw full fixed
    ]

-- A breakpoint that marks something: it has a hash, its scope, and the time to live of the plan.
abbrev pub Marks : String → String → CacheBreakpoint → Type 0
Marks ttl scope b = (b.hash ≢ "") × (b.scope ≡ scope) × (b.ttl ≡ ttl)

-- Tools first, then the system prompt, then messages; at most one of each of the first two.
pub record IsLayout (ttl : String) (bs : List CacheBreakpoint) : Type 0 where
  pub tools : List CacheBreakpoint
  pub system : List CacheBreakpoint
  pub messages : List CacheBreakpoint
  pub parts : bs ≡ tools ++ system ++ messages
  pub one_tools : length tools ≤ 1
  pub one_system : length system ≤ 1
  pub tools_marked : All (Marks ttl "tools") tools
  pub system_marked : All (Marks ttl "system") system
  pub messages_marked : All (Marks ttl "messages") messages

-- `bs'` is `bs` with at most `n` more breakpoints, all of them marks of the scope.
record Adds (n : ℕ) (ttl scope : String) (bs bs' : List CacheBreakpoint) : Type 0 where
  new : List CacheBreakpoint
  ends : bs' ≡ bs ++ new
  few : length new ≤ n
  marks : All (Marks ttl scope) new

module _ (m : ℕ) (ttl scope : String) where
  Adds-none : (n : ℕ) (bs : List CacheBreakpoint) → Adds n ttl scope bs bs
  Adds-none n bs = record { new = []; ends = sym (append-nil bs); few = omega arith; marks = tt }

  Adds-trans :
      {k n : ℕ} {xs bs cs : List CacheBreakpoint}
      → Adds k ttl scope xs bs
      → Adds n ttl scope bs cs
      → Adds (k + n) ttl scope xs cs
  Adds-trans {xs} f g = record {
    new = f.new ++ g.new;
    ends = rw g.ends (rw f.ends (append_assoc xs f.new g.new));
    few = omega (arith, f.few, g.few, length-append {0} f.new g.new);
    marks = All-append (Marks ttl scope) f.new g.new f.marks g.marks;
  }

  Adds-add :
      (b : CacheBreakpoint) (bs : List CacheBreakpoint)
      → b.scope ≡ scope
      → b.ttl ≡ ttl
      → Adds 1 ttl scope bs (add m b bs)
  unfolding add
  Adds-add b bs s t = elim (Bool-cases (leb m (length bs))) [
    | inl full ↦ rw full (Adds-none 1 bs)
    | inr room ↦ rw room (elim (Bool-cases (b.hash == "")) [
      | inl no_hash ↦ rw no_hash (Adds-none 1 bs)
      | inr hash ↦ rw hash (record {
        new = b ∷ [];
        ends = refl;
        few = omega arith;
        marks = ((ground (arith, eq_iff b.hash ""), s, t), tt);
      })
    ])
  ]

  Adds-add_scope :
      (hash : String) (n : ℕ) (skip : Bool) (bs : List CacheBreakpoint)
      → Adds 1 ttl scope bs (add_scope m scope ttl hash n skip bs)
  unfolding add_scope
  Adds-add_scope hash zero skip bs = Adds-none 1 bs
  Adds-add_scope hash (suc n) true bs = Adds-none 1 bs
  Adds-add_scope hash (suc n) false bs = Adds-add (last_of scope ttl hash n) bs refl refl

Adds-add_messages :
    (m : ℕ) (ttl fallback : String) (cs : Candidates) (bs : List CacheBreakpoint)
    → Adds (length cs) ttl "messages" bs (add_messages m ttl fallback cs bs)
unfolding add_messages
Adds-add_messages m ttl fallback [] bs = Adds-none m ttl "messages" 0 bs
Adds-add_messages m ttl fallback (c ∷ cs) bs =
    let e : suc (length cs) ≡ 1 + length cs = omega arith in
    rw e (
      Adds-trans m ttl "messages"
        (Adds-add m ttl "messages" (of_candidate ttl fallback c) bs refl refl)
        (Adds-add_messages m ttl fallback cs _))

IsLayout-fixed :
    {k : ℕ} (ttl : String) {xs bs cs : List CacheBreakpoint}
    → Adds 1 ttl "tools" [] xs
    → Adds 1 ttl "system" xs bs
    → Adds k ttl "messages" bs cs
    → IsLayout ttl cs
IsLayout-fixed ttl f g h = record {
  tools = f.new;
  system = g.new;
  messages = h.new;
  parts = h.ends ∙ rw g.ends (rw f.ends);
  one_tools = f.few;
  one_system = g.few;
  tools_marked = f.marks;
  system_marked = g.marks;
  messages_marked = h.marks;
}

-- The breakpoints mark the tools first, then the system prompt, then messages, with at most one
-- of each of the first two; every one has a hash and the time to live of the configuration.
pub breakpoints-IsLayout :
    (cfg : PlannerConfig) (input : PlanInput) → IsLayout cfg.ttl (breakpoints_of cfg input)
unfolding breakpoints_of fixed_breakpoints
breakpoints-IsLayout cfg input =
    let tools =
      Adds-add_scope (max_of cfg) cfg.ttl "tools" input.tools_hash input.tool_count
        (too_small input.estimated_tool_tokens (min_bp cfg)) [] in
    let system =
      Adds-add_scope (max_of cfg) cfg.ttl "system" input.system_hash input.system_block_count
        (too_small (input.estimated_tool_tokens + input.estimated_system_tokens) (min_bp cfg)) _ in
    elim (Bool-cases (ltb 0 (max_of cfg - length (fixed_breakpoints cfg input)))) [
      | inl room ↦ rw room (
          IsLayout-fixed cfg.ttl tools system (
            Adds-add_messages (max_of cfg) cfg.ttl input.message_prefix_hash
              (select
                (candidates_of input.message_breakpoints input.message_count
                  input.message_prefix_hash)
                (max_of cfg - length (fixed_breakpoints cfg input)))
              _))
      | inr full ↦
          rw full (IsLayout-fixed cfg.ttl tools system (Adds-none 0 cfg.ttl "messages" 0 _))
    ]
