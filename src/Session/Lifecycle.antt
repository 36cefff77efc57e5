-- ===== src/Session/Lifecycle.antt =====
-- The life of a session: it is resumed while it is fresh and made anew when it is not.
use text.Mathlib.TextEquality.{eq_iff}
use moon_bridge.Prelude.{
  ℕ, suc, ◌+◌, ◌≤◌, String, ◌≡◌, refl, ap, ◌∙◌, ◌≢◌, inl, inr, false, none, some, if◌then◌else◌,
  ◌==◌, nat_comparable, string_comparable, arith, Option-cases, Option, ◌↔◌,
}
use moon_bridge.Prelude.GoMap.{GoMap, get, put, IsMap, get-put}
use moon_bridge.Session.{
  Session, ServerSession, InMemoryManager, Config, is_stale, prune, make_room, new_session,
  backfill, get_or_create, prune_all,
}
use moon_bridge.Session.Eviction.{make_room_lem}
use moon_bridge.Session.Pruning.{
  fresh_only, get-prune, get-prune_fresh, prune-IsMap, has-prune, pruned_kept,
}
use moon_bridge.Session.Valid.{IsValid, prune_all-IsValid, resumed-IsValid, created-IsValid}

module _ (Data : Type 0) where
  get-put_self :
      (k : String) (e : ServerSession Data) (m : GoMap String (ServerSession Data))
      → get k (put k e m) ≡ some e
  get-put_self k e m = ground (arith, get-put k k e m, eq_iff k k)

  pub found_eqn :
      (cfg : Config Data) (key : String) (now : ℕ) (m : InMemoryManager Data)
      (e : ServerSession Data)
      → get key (prune Data cfg.session_ttl now m.sessions) ≡ some e
      → get_or_create Data cfg key now m ≡ (
        backfill Data cfg e.sess,
        record m {
          sessions =
              put key
                (record { sess = backfill Data cfg e.sess; last_used = now })
                (prune Data cfg.session_ttl now m.sessions);
        },
      )
  unfolding get_or_create backfill put
  found_eqn cfg key now m e found = rw (found, get_or_create) refl

  pub absent_eqn :
      (cfg : Config Data) (key : String) (now : ℕ) (m : InMemoryManager Data)
      → get key (prune Data cfg.session_ttl now m.sessions) ≡ none
      → get_or_create Data cfg key now m ≡ (
        new_session Data cfg m.made key now,
        record {
          sessions =
              put key
                (record { sess = new_session Data cfg m.made key now; last_used = now })
                (make_room Data cfg.max_sessions (prune Data cfg.session_ttl now m.sessions));
          made = suc m.made;
        },
      )
  unfolding get_or_create put
  absent_eqn cfg key now m absent = rw (absent, get_or_create) refl

  pub created_kept :
      (cfg : Config Data) (key : String) (now : ℕ) (m : InMemoryManager Data)
      → IsValid Data cfg m
      → (f : ServerSession Data) (j : String) (e : ServerSession Data) → key ≢ j
      → get j
          (put key f (make_room Data cfg.max_sessions (prune Data cfg.session_ttl now m.sessions)))
        ≡ some e
      → get j m.sessions ≡ some e
  created_kept cfg key now m v f j e away stays =
      let live = prune Data cfg.session_ttl now m.sessions in
      let (fits, evicted) =
        make_room_lem Data cfg.max_sessions live
          (prune-IsMap Data cfg.session_ttl now m.sessions v.is_map)
          (has-prune Data cfg.session_ttl now "" m.sessions v.no_empty_key) in
      let left : get j (make_room Data cfg.max_sessions live) ≡ some e =
        ground (arith, get-put key j f (make_room Data cfg.max_sessions live), eq_iff key j) in
      pruned_kept Data cfg.session_ttl now j e m.sessions v.is_map (evicted.kept j e left)

  -- If `m` is valid and the key is not empty, `GetOrCreate` leaves a valid manager: one session
  -- to a key, none under the empty key, at most `max_sessions` of them if there is a limit, and
  -- no session under two keys.
  pub get_or_create-IsValid :
      (cfg : Config Data) (key : String) (now : ℕ) (m : InMemoryManager Data)
      → key ≢ ""
      → IsValid Data cfg m
      → IsValid Data cfg (get_or_create Data cfg key now m).1
  unfolding prune_all
  get_or_create-IsValid cfg key now m ne v =
      let live = prune_all Data cfg now m in
      let pruned = prune_all-IsValid Data cfg now m v in
      elim (Option-cases (get key (prune Data cfg.session_ttl now m.sessions))) [
        | inl absent ↦
            rw (absent_eqn cfg key now m absent) (created-IsValid Data cfg key now live ne pruned)
        | inr (e, found) ↦
            rw (found_eqn cfg key now m e found)
              (resumed-IsValid Data cfg key now live e pruned found)
      ]

  -- The session that `GetOrCreate` gives is the one it keeps under the key, as used just now.
  pub get_or_create_stored :
      (cfg : Config Data) (key : String) (now : ℕ) (m : InMemoryManager Data)
      → get key (get_or_create Data cfg key now m).1.sessions
        ≡ some (record { sess = (get_or_create Data cfg key now m).0; last_used = now })
  get_or_create_stored cfg key now m =
      elim (Option-cases (get key (prune Data cfg.session_ttl now m.sessions))) [
        | inl absent ↦ rw (absent_eqn cfg key now m absent) (get-put_self key _ _)
        | inr (e, found) ↦ rw (found_eqn cfg key now m e found) (get-put_self key _ _)
      ]

  -- What a session has keeps its place; where it has nothing, it has what is given.
  abbrev pub IsFilled : Option Data → Option Data → Option Data → Type 0
  IsFilled (some d) given after = after ≡ some d
  IsFilled none given after = after ≡ given

  resumed_lem :
      (cfg : Config Data) (key : String) (now : ℕ) (m : InMemoryManager Data)
      (e : ServerSession Data)
      → IsMap m.sessions
      → get key m.sessions ≡ some e
      → is_stale Data cfg.session_ttl now e ≡ false
      → ((get_or_create Data cfg key now m).0 ≡ backfill Data cfg e.sess)
        × ((get_or_create Data cfg key now m).1.made ≡ m.made)
        × ((j : String)
            → get j (get_or_create Data cfg key now m).1.sessions ≡ (
                if key == j
                then some (record { sess = backfill Data cfg e.sess; last_used = now })
                else fresh_only Data cfg.session_ttl now (get j m.sessions)))
  resumed_lem cfg key now m e w found fresh =
      let live : get key (prune Data cfg.session_ttl now m.sessions) ≡ some e =
        ground (arith, get-prune_fresh Data cfg.session_ttl now key m.sessions w) in
      rw (found_eqn cfg key now m e live) (
        refl,
        refl,
        λ j. ground (
          arith,
          get-put key j (record { sess = backfill Data cfg e.sess; last_used = now })
              (prune Data cfg.session_ttl now m.sessions),
          get-prune_fresh Data cfg.session_ttl now j m.sessions w,
        ),
      )

  backfill-IsFilled :
      (cfg : Config Data) (s : Session Data)
      → IsFilled s.extension_data cfg.plugin_data (backfill Data cfg s).extension_data
  unfolding backfill
  backfill-IsFilled cfg s = elim (Option-cases s.extension_data) [
    | inl nothing ↦ rw (nothing, IsFilled) refl
    | inr (d, there) ↦ rw (there, IsFilled) refl
  ]

  -- If there is one session to a key and the one under this key was used no longer ago than the
  -- time to live, `GetOrCreate` gives the session with the same identity, id and time of
  -- creation, whose data is what it had, or the plugins' data where it had none, keeps it under
  -- the key as used now, and makes no new session. Under any other key stands afterwards exactly
  -- what stood there before and was used no longer ago than the time to live.
  pub get_or_create_resumes :
      (cfg : Config Data) (key : String) (now : ℕ) (m : InMemoryManager Data)
      (e : ServerSession Data) (j : String) (f : ServerSession Data)
      → IsMap m.sessions
      → get key m.sessions ≡ some e
      → now ≤ e.last_used + cfg.session_ttl
      → key ≢ j
      → ((get_or_create Data cfg key now m).0.identity ≡ e.sess.identity)
        × ((get_or_create Data cfg key now m).0.id ≡ e.sess.id)
        × ((get_or_create Data cfg key now m).0.created_at ≡ e.sess.created_at)
        × IsFilled e.sess.extension_data cfg.plugin_data
            (get_or_create Data cfg key now m).0.extension_data
        × (get key (get_or_create Data cfg key now m).1.sessions
            ≡ some (record { sess = (get_or_create Data cfg key now m).0; last_used = now }))
        × ((get_or_create Data cfg key now m).1.made ≡ m.made)
        × ((get j (get_or_create Data cfg key now m).1.sessions ≡ some f)
            ↔ ((get j m.sessions ≡ some f) × (now ≤ f.last_used + cfg.session_ttl)))
  unfolding backfill
  get_or_create_resumes cfg key now m e j f w found fresh away =
      let (same, made, others) = resumed_lem cfg key now m e w found (ground arith) in
      let kept : get j (get_or_create Data cfg key now m).1.sessions
          ≡ get j (prune Data cfg.session_ttl now m.sessions) =
        ground (
          arith,
          others j,
          eq_iff key j,
          get-prune_fresh Data cfg.session_ttl now j m.sessions w,
        ) in
      (
        ap (λ s. s.identity) same,
        ap (λ s. s.id) same,
        ap (λ s. s.created_at) same,
        rw same (backfill-IsFilled cfg e.sess),
        get_or_create_stored cfg key now m,
        made,
        rw kept (get-prune Data cfg.session_ttl now j m.sessions f w),
      )

  -- If `m` is valid and nothing fresh stands under the key, `GetOrCreate` gives a new session,
  -- created now, with the plugins' data and unlike any session in `m`.
  pub get_or_create_creates :
      (cfg : Config Data) (key : String) (now : ℕ) (m : InMemoryManager Data) (j : String)
      (e : ServerSession Data)
      → IsValid Data cfg m
      → fresh_only Data cfg.session_ttl now (get key m.sessions) ≡ none
      → get j m.sessions ≡ some e
      → ((get_or_create Data cfg key now m).0 ≡ new_session Data cfg m.made key now)
        × (e.sess.identity ≢ (get_or_create Data cfg key now m).0.identity)
  get_or_create_creates cfg key now m j e v gone found =
      let absent : get key (prune Data cfg.session_ttl now m.sessions) ≡ none =
        get-prune_fresh Data cfg.session_ttl now key m.sessions v.is_map ∙ gone in
      rw (absent_eqn cfg key now m absent)
        (refl, λ same. let before = v.is_separate.made_before j e found in omega arith)

  -- If `m` is valid, whatever stands under another key after `GetOrCreate` stood there before,
  -- the same session used at the same time.
  pub get_or_create_keeps :
      (cfg : Config Data) (key : String) (now : ℕ) (m : InMemoryManager Data) (j : String)
      (e : ServerSession Data)
      → IsValid Data cfg m
      → key ≢ j
      → get j (get_or_create Data cfg key now m).1.sessions ≡ some e
      → get j m.sessions ≡ some e
  get_or_create_keeps cfg key now m j e v away =
      elim (Option-cases (get key (prune Data cfg.session_ttl now m.sessions))) [
        | inl absent ↦
            rw (absent_eqn cfg key now m absent) (created_kept cfg key now m v _ j e away)
        | inr (f, found) ↦ rw (found_eqn cfg key now m f found) (λ stays.
            pruned_kept Data cfg.session_ttl now j e m.sessions v.is_map (
              ground (
                arith,
                get-put key j (record { sess = backfill Data cfg f.sess; last_used = now })
                    (prune Data cfg.session_ttl now m.sessions),
                eq_iff key j,
              )))
      ]

  -- If `m` is valid, the key is not empty and no more than the time to live passes, two calls of
  -- `GetOrCreate` with the same key give the same session.
  pub get_or_create_again :
      (cfg : Config Data) (key : String) (now later : ℕ) (m : InMemoryManager Data)
      → key ≢ ""
      → IsValid Data cfg m
      → later ≤ now + cfg.session_ttl
      → (get_or_create Data cfg key later (get_or_create Data cfg key now m).1).0.identity
        ≡ (get_or_create Data cfg key now m).0.identity
  unfolding backfill
  get_or_create_again cfg key now later m ne v soon =
      let (same, made, others) =
        resumed_lem cfg key later (get_or_create Data cfg key now m).1 _
          (get_or_create-IsValid cfg key now m ne v).is_map (get_or_create_stored cfg key now m)
          (ground arith) in
      ap (λ s. s.identity) same
