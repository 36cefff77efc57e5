-- ===== src/Session/Valid.antt =====
-- The state the server keeps its sessions in, and that each step keeps it so.
use text.Mathlib.TextEquality.{eq_iff}
use moon_bridge.Prelude.{
  ℕ, suc, ◌≤◌, ◌<◌, String, ◌≡◌, refl, ◌≢◌, some, nat_comparable, string_comparable, length, arith,
}
use moon_bridge.Prelude.GoMap.{GoMap, get, put, IsMap, has-put, put-IsMap, length-put}
use moon_bridge.Session.{
  Session, ServerSession, InMemoryManager, Config, make_room, new_session, backfill, prune_all,
}
use moon_bridge.Session.Eviction.{NoEmptyKey, make_room_lem, has_of_get}
use moon_bridge.Session.Pruning.{has-prune, prune-IsMap, length-prune-le, pruned_kept}
use moon_bridge.Session.Separate.{
  IsSeparate, IsSeparate-sub, IsSeparate-put_new, IsSeparate-put_same,
}

module _ (Data : Type 0) where
  -- A manager as the server keeps it: one session to a key, none under the empty key, no more than
  -- the limit where there is one, and the sessions apart.
  pub record IsValid (cfg : Config Data) (m : InMemoryManager Data) : Type 0 where
    pub is_map : IsMap m.sessions
    pub no_empty_key : NoEmptyKey Data m.sessions
    pub bounded : 0 < cfg.max_sessions → length m.sessions ≤ cfg.max_sessions
    pub is_separate : IsSeparate Data m.made m.sessions

  put-NoEmptyKey :
      (k : String) (e : ServerSession Data) (m : GoMap String (ServerSession Data))
      → k ≢ ""
      → NoEmptyKey Data m
      → NoEmptyKey Data (put k e m)
  put-NoEmptyKey k e m ne n = ground (arith, has-put k "" e m, eq_iff k "")

  backfill-identity :
      (cfg : Config Data) (s : Session Data) → (backfill Data cfg s).identity ≡ s.identity
  unfolding backfill
  backfill-identity cfg s = refl

  pub prune_all-IsValid :
      (cfg : Config Data) (now : ℕ) (m : InMemoryManager Data)
      → IsValid cfg m
      → IsValid cfg (prune_all Data cfg now m)
  unfolding prune_all
  prune_all-IsValid cfg now m v = record {
    is_map = prune-IsMap Data cfg.session_ttl now m.sessions v.is_map;
    no_empty_key = has-prune Data cfg.session_ttl now "" m.sessions v.no_empty_key;
    bounded = λ p.
        let a = length-prune-le Data cfg.session_ttl now m.sessions in
        let b = v.bounded p in omega arith;
    is_separate =
        IsSeparate-sub Data
          (λ k e h. pruned_kept Data cfg.session_ttl now k e m.sessions v.is_map h) v.is_separate;
  }

  pub resumed-IsValid :
      (cfg : Config Data) (key : String) (now : ℕ) (m : InMemoryManager Data)
      (e : ServerSession Data)
      → IsValid cfg m
      → get key m.sessions ≡ some e
      → IsValid cfg (record m {
        sessions = put key (record { sess = backfill Data cfg e.sess; last_used = now }) m.sessions;
      })
  resumed-IsValid cfg key now m e v found =
      let there = has_of_get Data key e m.sessions found in
      let f : ServerSession Data = record { sess = backfill Data cfg e.sess; last_used = now } in
      record {
        is_map = put-IsMap key f m.sessions v.is_map;
        no_empty_key = ground (arith, has-put key "" f m.sessions, eq_iff key "", v.no_empty_key);
        bounded = λ p. ground (arith, length-put key f m.sessions, v.bounded p);
        is_separate =
            IsSeparate-put_same Data m.made key e f m.sessions found (backfill-identity cfg e.sess)
              v.is_separate;
      }

  pub created-IsValid :
      (cfg : Config Data) (key : String) (now : ℕ) (m : InMemoryManager Data)
      → key ≢ ""
      → IsValid cfg m
      → IsValid cfg (record {
        sessions =
            put key
              (record { sess = new_session Data cfg m.made key now; last_used = now })
              (make_room Data cfg.max_sessions m.sessions);
        made = suc m.made;
      })
  created-IsValid cfg key now m ne v =
      let e : ServerSession Data = record {
        sess = new_session Data cfg m.made key now;
        last_used = now;
      } in
      let (fits, evicted) =
        make_room_lem Data cfg.max_sessions m.sessions v.is_map v.no_empty_key in
      let left = make_room Data cfg.max_sessions m.sessions in
      record {
        is_map = put-IsMap key e left evicted.is_map;
        no_empty_key = put-NoEmptyKey key e left ne evicted.no_empty_key;
        bounded = λ p. ground (arith, length-put key e left, fits p);
        is_separate =
            IsSeparate-put_new Data m.made key e left refl
              (IsSeparate-sub Data evicted.kept v.is_separate);
      }
