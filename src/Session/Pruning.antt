-- ===== src/Session/Pruning.antt =====
-- What `pruneLocked` removes.
use text.Mathlib.TextEquality.{eq_iff}
use moon_bridge.Prelude.{
  ℕ, ◌≤◌, String, ◌≡◌, refl, inl, inr, false, Option, none, some, [], ◌∷◌, if◌then◌else◌,
  nat_comparable, string_comparable, length, arith, Bool-cases, Option-cases, ◌↔◌, ◌+◌,
}
use moon_bridge.Prelude.GoMap.{GoMap, get, has, IsMap, has-get}
use moon_bridge.Session.{ServerSession, is_stale, prune}

module _ (Data : Type 0) where
  pub has-prune :
      (ttl now : ℕ) (k : String) (m : GoMap String (ServerSession Data))
      → has k m ≡ false
      → has k (prune Data ttl now m) ≡ false
  unfolding prune has
  has-prune ttl now k [] h = refl
  has-prune ttl now k ((j, e) ∷ m) h = ground (arith, has-prune ttl now k m)

  pub prune-IsMap :
      (ttl now : ℕ) (m : GoMap String (ServerSession Data)) → IsMap m → IsMap (prune Data ttl now m)
  unfolding prune
  prune-IsMap ttl now [] w = tt
  prune-IsMap ttl now ((j, e) ∷ m) w = elim (Bool-cases (is_stale Data ttl now e)) [
    | inl stale ↦ rw stale (prune-IsMap ttl now m w.1)
    | inr fresh ↦ rw fresh (has-prune ttl now j m w.0, prune-IsMap ttl now m w.1)
  ]

  pub length-prune-le :
      (ttl now : ℕ) (m : GoMap String (ServerSession Data))
      → length (prune Data ttl now m) ≤ length m
  unfolding prune
  length-prune-le ttl now [] = omega arith
  length-prune-le ttl now ((j, e) ∷ m) = ground (arith, length-prune-le ttl now m)

  abbrev pub fresh_only : ℕ → ℕ → Option (ServerSession Data) → Option (ServerSession Data)
  fresh_only ttl now none = none
  fresh_only ttl now (some e) = if is_stale Data ttl now e then none else some e

  pub get-prune_fresh :
      (ttl now : ℕ) (k : String) (m : GoMap String (ServerSession Data))
      → IsMap m
      → get k (prune Data ttl now m) ≡ fresh_only ttl now (get k m)
  unfolding prune get
  get-prune_fresh ttl now k [] w = refl
  get-prune_fresh ttl now k ((j, e) ∷ m) w = ground (
    arith,
    eq_iff j k,
    has-get k (prune Data ttl now m),
    has-prune ttl now j m w.0,
    get-prune_fresh ttl now k m w.1,
  )

  -- If there is one session to a key, a session stands under a key after `pruneLocked` exactly
  -- when it stood there before and the present time is at most its last use plus the time to
  -- live.
  pub get-prune :
      (ttl now : ℕ) (k : String) (m : GoMap String (ServerSession Data)) (e : ServerSession Data)
      → IsMap m
      → (get k (prune Data ttl now m) ≡ some e) ↔ ((get k m ≡ some e) × (now ≤ e.last_used + ttl))
  get-prune ttl now k m e w =
      let fresh = get-prune_fresh ttl now k m w in
      (
        λ left. elim (Option-cases (get k m)) [
          | inl gone ↦ absurd (ground arith)
          | inr (f, there) ↦ (ground arith, ground arith)
        ],
        λ h. ground arith,
      )

  pub pruned_kept :
      (ttl now : ℕ) (k : String) (e : ServerSession Data) (m : GoMap String (ServerSession Data))
      → IsMap m
      → get k (prune Data ttl now m) ≡ some e
      → get k m ≡ some e
  pruned_kept ttl now k e m w found = ground (arith, get-prune_fresh ttl now k m w)
