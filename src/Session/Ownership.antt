-- ===== src/Session/Ownership.antt =====
-- Whose a session is: once a key has got it, no other key holds it, whatever happens.
use moon_bridge.Prelude.{
  ℕ, ◌<◌, String, ◌≡◌, sym, ap, ◌∙◌, ◌≢◌, inl, inr, some, nat_comparable, string_comparable, arith,
  Option-cases,
}
use moon_bridge.Prelude.GoMap.{get}
use moon_bridge.Session.{
  ServerSession, InMemoryManager, Config, prune, get_or_create, prune_all, new_ephemeral, backfill,
}
use moon_bridge.Session.Pruning.{pruned_kept}
use moon_bridge.Session.Separate.{get-put_cases}
use moon_bridge.Session.Valid.{IsValid}
use moon_bridge.Session.Lifecycle.{
  found_eqn, absent_eqn, created_kept, get_or_create-IsValid, get_or_create_stored,
}

module _ (Data : Type 0) where
  -- The session `i` belongs to the key `k`: no other key holds it, and none if `k` is empty.
  pub record IsOwned (k : String) (i : ℕ) (m : InMemoryManager Data) : Type 0 where
    pub made_before : i < m.made
    pub owner :
        (j : String) (e : ServerSession Data)
        → get j m.sessions ≡ some e
        → e.sess.identity ≡ i
        → (j ≡ k) × (k ≢ "")

  pub prune_all-IsOwned :
      (cfg : Config Data) (now : ℕ) (k : String) (i : ℕ) (m : InMemoryManager Data)
      → IsValid Data cfg m
      → IsOwned k i m
      → IsOwned k i (prune_all Data cfg now m)
  unfolding prune_all
  prune_all-IsOwned cfg now k i m v o = record {
    made_before = o.made_before;
    owner = λ j e found same.
        o.owner j e (pruned_kept Data cfg.session_ttl now j e m.sessions v.is_map found) same;
  }

  pub get_or_create-IsOwned :
      (cfg : Config Data) (key : String) (now : ℕ) (k : String) (i : ℕ) (m : InMemoryManager Data)
      → IsValid Data cfg m
      → IsOwned k i m
      → IsOwned k i (get_or_create Data cfg key now m).1
  unfolding backfill
  get_or_create-IsOwned cfg key now k i m v o =
      elim (Option-cases (get key (prune Data cfg.session_ttl now m.sessions))) [
        | inl absent ↦ rw (absent_eqn Data cfg key now m absent) (record {
          made_before = let b = o.made_before in omega arith;
          owner = λ j e found same. elim (get-put_cases Data key j _ e _ found) [
            | inl (at, is_e) ↦
                let clash : m.made ≡ i = sym (ap (λ x. x.sess.identity) is_e) ∙ same in
                let b = o.made_before in absurd (omega arith)
            | inr (away, old) ↦
                o.owner j e (created_kept Data cfg key now m v _ j e away found) same
          ];
        })
        | inr (f, live) ↦
            let old_f = pruned_kept Data cfg.session_ttl now key f m.sessions v.is_map live in
            rw (found_eqn Data cfg key now m f live) (record {
              made_before = o.made_before;
              owner = λ j e found same. elim (get-put_cases Data key j _ e _ found) [
                | inl (at, is_e) ↦
                    let (at_k, ne) =
                      o.owner key f old_f (sym (ap (λ x. x.sess.identity) is_e) ∙ same) in
                    (sym at ∙ at_k, ne)
                | inr (away, old) ↦
                    o.owner j e (pruned_kept Data cfg.session_ttl now j e m.sessions v.is_map old)
                      same
              ];
            })
      ]

  pub new_ephemeral-IsOwned :
      (cfg : Config Data) (id : String) (now : ℕ) (k : String) (i : ℕ) (m : InMemoryManager Data)
      → IsOwned k i m
      → IsOwned k i (new_ephemeral Data cfg id now m).1
  unfolding new_ephemeral
  new_ephemeral-IsOwned cfg id now k i m o = record {
    made_before = let b = o.made_before in omega arith;
    owner = o.owner;
  }

  pub new_ephemeral-IsValid :
      (cfg : Config Data) (id : String) (now : ℕ) (m : InMemoryManager Data)
      → IsValid Data cfg m
      → IsValid Data cfg (new_ephemeral Data cfg id now m).1
  unfolding new_ephemeral
  new_ephemeral-IsValid cfg id now m v = record {
    is_map = v.is_map;
    no_empty_key = v.no_empty_key;
    bounded = v.bounded;
    is_separate = record {
      made_before = λ k e h. let b = v.is_separate.made_before k e h in omega arith;
      isolated = v.is_separate.isolated;
    };
  }

  pub ephemeral_other :
      (cfg : Config Data) (id : String) (now i : ℕ) (m : InMemoryManager Data)
      → i < m.made
      → (new_ephemeral Data cfg id now m).0.identity ≢ i
  unfolding new_ephemeral
  ephemeral_other cfg id now i m b same = omega arith

  pub ephemeral_got :
      (cfg : Config Data) (k id : String) (now : ℕ) (m : InMemoryManager Data)
      → IsValid Data cfg m
      → IsOwned k (new_ephemeral Data cfg id now m).0.identity (new_ephemeral Data cfg id now m).1
  unfolding new_ephemeral
  ephemeral_got cfg k id now m v = record {
    made_before = omega arith;
    owner = λ j e found same. let b = v.is_separate.made_before j e found in absurd (omega arith);
  }

  pub keyed_got :
      (cfg : Config Data) (key : String) (now : ℕ) (m : InMemoryManager Data)
      → key ≢ ""
      → IsValid Data cfg m
      → IsOwned key
          (get_or_create Data cfg key now m).0.identity
          (get_or_create Data cfg key now m).1
  keyed_got cfg key now m ne v =
      let after = (get_or_create-IsValid Data cfg key now m ne v).is_separate in
      let stored = get_or_create_stored Data cfg key now m in
      record {
        made_before = after.made_before key _ stored;
        owner = λ j e found same. (after.isolated j key e _ found stored same, ne);
      }
