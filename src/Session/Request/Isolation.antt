-- ===== src/Session/Request/Isolation.antt =====
-- Sessions are isolated: over any run of the server, two requests get the same session only if both
-- name it by the same key.
use text.Mathlib.TextEquality.{eq_iff}
use moon_bridge.Prelude.{
  ℕ, String, ◌≡◌, refl, sym, ap, ◌∙◌, ◌≢◌, ◌⊎◌, inl, inr, true, false, Option, none, some, List, [],
  ◌∷◌, ◌==◌, nat_comparable, string_comparable, arith, Bool-cases, Option-cases, All,
}
use moon_bridge.Session.{Session, InMemoryManager, Config, get_or_create, prune_all, new_ephemeral}
use moon_bridge.Session.Valid.{IsValid, prune_all-IsValid}
use moon_bridge.Session.Lifecycle.{get_or_create-IsValid, get_or_create_stored}
use moon_bridge.Session.Request.{Request, session_key_from_request, session_for_request}
use moon_bridge.Session.Ownership.{
  IsOwned, prune_all-IsOwned, get_or_create-IsOwned, new_ephemeral-IsOwned, new_ephemeral-IsValid,
  ephemeral_other, ephemeral_got, keyed_got,
}

-- What happens to the sessions: a request, with the random identifier drawn for it if its session
-- is ephemeral, or a sweep of the pruner, each at its time.
pub data Step : Type 0 where
  request : Request → String → ℕ → Step
  sweep : ℕ → Step

module _ (Data : Type 0) where
  -- The manager after one step, and the identity of the session that a request got.
  unfoldable pub run_step :
      Config Data → Step → InMemoryManager Data → Option (String × ℕ) × InMemoryManager Data
  run_step cfg (request r id now) m = elim (session_for_request Data cfg r id now (some m)) [
    | none ↦ (none, m)
    | some (s, m') ↦ (some (session_key_from_request r, s.identity), m')
  ]
  run_step cfg (sweep now) m = (none, prune_all Data cfg now m)

  -- The keys of the requests and the sessions they got, in order.
  unfoldable pub trace : Config Data → List Step → InMemoryManager Data → List (String × ℕ)
  trace cfg [] m = []
  trace cfg (s ∷ ss) m =
      let rest = trace cfg ss (run_step cfg s m).1 in
      elim (run_step cfg s m).0 [ none ↦ rest | some p ↦ p ∷ rest ]

  bare_eqn :
      (cfg : Config Data) (r : Request) (id : String) (now : ℕ) (m : InMemoryManager Data)
      → (session_key_from_request r == "") ≡ true
      → session_for_request Data cfg r id now (some m) ≡ some (new_ephemeral Data cfg id now m)
  unfolding session_for_request
  bare_eqn cfg r id now m bare = rw bare refl

  keyed_eqn :
      (cfg : Config Data) (r : Request) (id : String) (now : ℕ) (m : InMemoryManager Data)
      → (session_key_from_request r == "") ≡ false
      → session_for_request Data cfg r id now (some m)
        ≡ some (get_or_create Data cfg (session_key_from_request r) now m)
  unfolding session_for_request
  keyed_eqn cfg r id now m keyed = rw keyed refl

  run_eqn :
      (cfg : Config Data) (r : Request) (id : String) (now : ℕ) (m : InMemoryManager Data)
      (a : Session Data × InMemoryManager Data)
      → session_for_request Data cfg r id now (some m) ≡ some a
      → run_step cfg (request r id now) m ≡ (some (session_key_from_request r, a.0.identity), a.1)
  unfolding run_step
  run_eqn cfg r id now m a h = rw (h, run_step) refl

  -- Requests without a usable header get a session of their own, all others the one of their key.
  request_eqn :
      (cfg : Config Data) (r : Request) (id : String) (now : ℕ) (m : InMemoryManager Data)
      → ((session_key_from_request r ≡ "")
          × (run_step cfg (request r id now) m ≡ (
            some (session_key_from_request r, (new_ephemeral Data cfg id now m).0.identity),
            (new_ephemeral Data cfg id now m).1,
          )))
        ⊎ ((session_key_from_request r ≢ "")
            × (run_step cfg (request r id now) m ≡ (
              some (
                session_key_from_request r,
                (get_or_create Data cfg (session_key_from_request r) now m).0.identity,
              ),
              (get_or_create Data cfg (session_key_from_request r) now m).1,
            )))
  request_eqn cfg r id now m = elim (Bool-cases (session_key_from_request r == "")) [
    | inl bare ↦ inl (
      ground (arith, eq_iff (session_key_from_request r) ""),
      run_eqn cfg r id now m _ (bare_eqn cfg r id now m bare),
    )
    | inr keyed ↦ inr (
      (λ p. ground (arith, eq_iff (session_key_from_request r) "")),
      run_eqn cfg r id now m _ (keyed_eqn cfg r id now m keyed),
    )
  ]

  run_step-IsValid :
      (cfg : Config Data) (s : Step) (m : InMemoryManager Data)
      → IsValid Data cfg m
      → IsValid Data cfg (run_step cfg s m).1
  run_step-IsValid cfg (request r id now) m v = elim (request_eqn cfg r id now m) [
    | inl (bare, eqn) ↦ rw eqn (new_ephemeral-IsValid Data cfg id now m v)
    | inr (keyed, eqn) ↦
        rw eqn (get_or_create-IsValid Data cfg (session_key_from_request r) now m keyed v)
  ]
  run_step-IsValid cfg (sweep now) m v = unfold run_step in prune_all-IsValid Data cfg now m v

  run_step-IsOwned :
      (cfg : Config Data) (s : Step) (k : String) (i : ℕ) (m : InMemoryManager Data)
      → IsValid Data cfg m
      → IsOwned Data k i m
      → IsOwned Data k i (run_step cfg s m).1
  run_step-IsOwned cfg (request r id now) k i m v o = elim (request_eqn cfg r id now m) [
    | inl (bare, eqn) ↦ rw eqn (new_ephemeral-IsOwned Data cfg id now k i m o)
    | inr (keyed, eqn) ↦
        rw eqn (get_or_create-IsOwned Data cfg (session_key_from_request r) now k i m v o)
  ]
  run_step-IsOwned cfg (sweep now) k i m v o =
      unfold run_step in prune_all-IsOwned Data cfg now k i m v o

  result_of : {A : Type 0} {a : Option A} {p q : A} → a ≡ some p → a ≡ some q → p ≡ q
  result_of h g = cc

  -- What a request gets is then owned by its key.
  got-IsOwned :
      (cfg : Config Data) (s : Step) (m : InMemoryManager Data) (p : String × ℕ)
      → IsValid Data cfg m
      → (run_step cfg s m).0 ≡ some p
      → IsOwned Data p.0 p.1 (run_step cfg s m).1
  got-IsOwned cfg (request r id now) m p v h = elim (request_eqn cfg r id now m) [
    | inl (bare, eqn) ↦
        let is_p = result_of h (ap (λ x. x.0) eqn) in
        rw is_p (rw eqn (ephemeral_got Data cfg _ id now m v))
    | inr (keyed, eqn) ↦
        let is_p = result_of h (ap (λ x. x.0) eqn) in
        rw is_p (rw eqn (keyed_got Data cfg _ now m keyed v))
  ]
  got-IsOwned cfg (sweep now) m p v h = absurd (unfold run_step in ground arith)

  -- A session that is owned by a key is later got under that key alone.
  owned_got :
      (cfg : Config Data) (s : Step) (k : String) (i : ℕ) (m : InMemoryManager Data)
      (p : String × ℕ)
      → IsValid Data cfg m
      → IsOwned Data k i m
      → (run_step cfg s m).0 ≡ some p
      → p.1 ≡ i
      → (p.0 ≡ k) × (k ≢ "")
  owned_got cfg (request r id now) k i m p v o h same = elim (request_eqn cfg r id now m) [
    | inl (bare, eqn) ↦
        let is_p = result_of h (ap (λ x. x.0) eqn) in
        let b = o.made_before in
        absurd (ephemeral_other Data cfg id now i m b (sym (ap (λ x. x.1) is_p) ∙ same))
    | inr (keyed, eqn) ↦
        let is_p = result_of h (ap (λ x. x.0) eqn) in
        let key = session_key_from_request r in
        let later = get_or_create-IsOwned Data cfg key now k i m v o in
        rw is_p (
          later.owner key _ (get_or_create_stored Data cfg key now m)
            (sym (ap (λ x. x.1) is_p) ∙ same))
  ]
  owned_got cfg (sweep now) k i m p v o h same = absurd (unfold run_step in ground arith)

  -- In a trace, whatever comes after an entry and has its session has its key, and the key is not
  -- empty.
  abbrev pub IsIsolated : List (String × ℕ) → Type 0
  IsIsolated [] = Unit
  IsIsolated (p ∷ ps) = All (λ q. q.1 ≡ p.1 → (q.0 ≡ p.0) × (p.0 ≢ "")) ps × IsIsolated ps

  trace_owned :
      (cfg : Config Data) (ss : List Step) (k : String) (i : ℕ) (m : InMemoryManager Data)
      → IsValid Data cfg m
      → IsOwned Data k i m
      → All (λ q. q.1 ≡ i → (q.0 ≡ k) × (k ≢ "")) (trace cfg ss m)
  unfolding trace
  trace_owned cfg [] k i m v o = tt
  trace_owned cfg (s ∷ ss) k i m v o =
      let later =
        trace_owned cfg ss k i (run_step cfg s m).1 (run_step-IsValid cfg s m v)
          (run_step-IsOwned cfg s k i m v o) in
      elim (Option-cases (run_step cfg s m).0) [
        | inl nothing ↦ rw (nothing, trace) later
        | inr (p, got) ↦ rw (got, trace) (owned_got cfg s k i m p v o got, later)
      ]

  -- Over any run of requests and sweeps from a valid manager, two requests get the same session
  -- only if they have the same key and that key is not empty: requests under different keys, and
  -- requests without a usable header, never share one.
  pub trace-IsIsolated :
      (cfg : Config Data) (ss : List Step) (m : InMemoryManager Data)
      → IsValid Data cfg m
      → IsIsolated (trace cfg ss m)
  unfolding trace
  trace-IsIsolated cfg [] m v = tt
  trace-IsIsolated cfg (s ∷ ss) m v =
      let next = run_step-IsValid cfg s m v in
      let later = trace-IsIsolated cfg ss (run_step cfg s m).1 next in
      elim (Option-cases (run_step cfg s m).0) [
        | inl nothing ↦ rw (nothing, trace) later
        | inr (p, got) ↦
            rw (got, trace)
              (
                trace_owned cfg ss p.0 p.1 (run_step cfg s m).1 next (got-IsOwned cfg s m p v got),
                later,
              )
      ]
