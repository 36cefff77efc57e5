-- ===== src/Session/Eviction.antt =====
-- Eviction and pruning: what goes, what stays, and that making room ends.
use text.Mathlib.TextEquality.{eq_iff}
use text.Mathlib.TextPositions.{eq_refl}
use moon_bridge.Prelude.{
  ℕ, zero, suc, ◌≤◌, ◌<◌, String, ◌≡◌, refl, ◌∙◌, ◌≢◌, ◌⊎◌, inl, inr, true, false, ◌&&◌, none, some,
  [], ◌∷◌, ltb, leb, ◌==◌, nat_comparable, string_comparable, length, arith, Bool-cases,
  Option-cases,
}
use moon_bridge.Prelude.GoMap.{
  GoMap, get, delete, has, IsMap, get-delete, has-delete, has-get, delete-IsMap, length-delete,
}
use moon_bridge.Session.{ServerSession, oldest_from, oldest_key, evict_lru, evict_while, make_room}

module _ (Data : Type 0) where
  -- No session is kept under the empty key.
  abbrev pub NoEmptyKey : GoMap String (ServerSession Data) → Type 0
  NoEmptyKey m = has "" m ≡ false

  -- `t` is at most the time of every entry.
  abbrev AtMost : ℕ → GoMap String (ServerSession Data) → Type 0
  AtMost t [] = Unit
  AtMost t ((k, e) ∷ m) = (t ≤ e.last_used) × AtMost t m

  AtMost-trans : (s t : ℕ) (m : GoMap String (ServerSession Data)) → s ≤ t → AtMost t m → AtMost s m
  AtMost-trans s t [] h k = tt
  AtMost-trans s t ((j, e) ∷ m) h k = (omega arith, AtMost-trans s t m h k.1)

  AtMost-get :
      (t : ℕ) (k : String) (e : ServerSession Data) (m : GoMap String (ServerSession Data))
      → AtMost t m
      → get k m ≡ some e
      → t ≤ e.last_used
  unfolding get
  AtMost-get t k e [] h found = absurd (ground arith)
  AtMost-get t k e ((j, f) ∷ m) h found = elim (Bool-cases (j == k)) [
    | inl here ↦ ground (arith, h.0)
    | inr there ↦ AtMost-get t k e m h.1 (ground arith)
  ]

  pub has_of_get :
      (k : String) (e : ServerSession Data) (m : GoMap String (ServerSession Data))
      → get k m ≡ some e
      → has k m ≡ true
  has_of_get k e m found = elim (Bool-cases (has k m)) [
    | inl there ↦ there
    | inr absent ↦ absurd (ground (arith, has-get k m absent))
  ]

  get-cons_other :
      (j k : String) (f e : ServerSession Data) (m : GoMap String (ServerSession Data))
      → has j m ≡ false
      → get k m ≡ some e
      → get k ((j, f) ∷ m) ≡ some e
  unfolding get
  get-cons_other j k f e m absent found = ground (arith, has_of_get k e m found, eq_iff j k)

  oldest_step :
      (j k : String) (t : ℕ) (e : ServerSession Data) (m : GoMap String (ServerSession Data))
      → ltb e.last_used t ≡ true
      → oldest_from Data k t ((j, e) ∷ m) ≡ oldest_from Data j e.last_used m
  unfolding oldest_from
  oldest_step j k t e m older = rw older

  oldest_skip :
      (j k : String) (t : ℕ) (e : ServerSession Data) (m : GoMap String (ServerSession Data))
      → ltb e.last_used t ≡ false
      → oldest_from Data k t ((j, e) ∷ m) ≡ oldest_from Data k t m
  unfolding oldest_from
  oldest_skip j k t e m newer = rw newer

  get-cons_self :
      (j : String) (e : ServerSession Data) (m : GoMap String (ServerSession Data))
      → get j ((j, e) ∷ m) ≡ some e
  unfolding get
  get-cons_self j e m = rw eq_refl

  oldest_here :
      (j k : String) (t : ℕ) (e : ServerSession Data) (m : GoMap String (ServerSession Data))
      → ltb e.last_used t ≡ true
      → oldest_from Data j e.last_used m ≡ j
      → get (oldest_from Data k t ((j, e) ∷ m)) ((j, e) ∷ m) ≡ some e
  oldest_here j k t e m older same =
      rw (oldest_step j k t e m older) (rw same (get-cons_self j e m))

  oldest_there :
      (j k : String) (t : ℕ) (e f : ServerSession Data) (m : GoMap String (ServerSession Data))
      → ltb e.last_used t ≡ true
      → has j m ≡ false
      → get (oldest_from Data j e.last_used m) m ≡ some f
      → get (oldest_from Data k t ((j, e) ∷ m)) ((j, e) ∷ m) ≡ some f
  oldest_there j k t e f m older absent found =
      rw (oldest_step j k t e m older) (get-cons_other j _ e f m absent found)

  -- The loop ends with the key it began with, whose time is at most all others, or with a later key
  -- whose time is below the first and at most all others.
  oldest_from_lem :
      (k : String) (t : ℕ) (m : GoMap String (ServerSession Data))
      → IsMap m
      → ((oldest_from Data k t m ≡ k) × AtMost t m)
        ⊎ ((e : ServerSession Data) × (get (oldest_from Data k t m) m ≡ some e)
            × (e.last_used < t)
            × AtMost e.last_used m)
  oldest_from_lem k t [] w = inl (unfold oldest_from in refl, tt)
  oldest_from_lem k t ((j, e) ∷ m) w = elim (Bool-cases (ltb e.last_used t)) [
    | inl older ↦ elim (oldest_from_lem j e.last_used m w.1) [
      | inl (same, least) ↦
          inr (e, oldest_here j k t e m older same, ground arith, (omega arith, least))
      | inr (f, found, less, least) ↦
          inr (f, oldest_there j k t e f m older w.0 found, ground arith, (omega arith, least))
    ]
    | inr newer ↦ elim (oldest_from_lem k t m w.1) [
      | inl (same, least) ↦ inl (oldest_skip j k t e m newer ∙ same, (ground arith, least))
      | inr (f, found, less, least) ↦ inr (
        f,
        rw (oldest_skip j k t e m newer) (get-cons_other j _ e f m w.0 found),
        less,
        (ground arith, least),
      )
    ]
  ]

  -- The oldest key of a map that is not empty stands in it, at a time that no other entry is below.
  oldest_key_lem :
      (m : GoMap String (ServerSession Data))
      → IsMap m
      → m ≢ []
      → (e : ServerSession Data) × (get (oldest_key Data m) m ≡ some e) × AtMost e.last_used m
  oldest_key_lem [] w ne = absurd (ne refl)
  oldest_key_lem ((k, e) ∷ m) w ne = elim (oldest_from_lem k e.last_used m w.1) [
    | inl (same, least) ↦
        (e, unfold oldest_key in rw same (get-cons_self k e m), (omega arith, least))
    | inr (f, found, less, least) ↦
        (f, unfold oldest_key in get-cons_other k _ e f m w.0 found, (omega arith, least))
  ]

  -- `m'` is what is left of `m` when sessions are evicted, the least recently used first: what is
  -- left is unchanged, and nothing that went was used after something that stayed.
  pub record IsEviction (m m' : GoMap String (ServerSession Data)) : Type 0 where
    pub is_map : IsMap m'
    pub no_empty_key : NoEmptyKey m'
    pub kept : (k : String) (e : ServerSession Data) → get k m' ≡ some e → get k m ≡ some e
    pub oldest :
        (k j : String) (e f : ServerSession Data)
        → get k m ≡ some e
        → get k m' ≡ none
        → get j m' ≡ some f
        → e.last_used ≤ f.last_used

  IsEviction-refl :
      (m : GoMap String (ServerSession Data)) → IsMap m → NoEmptyKey m → IsEviction m m
  IsEviction-refl m w n = record {
    is_map = w;
    no_empty_key = n;
    kept = λ k e h. h;
    oldest = λ k j e f h gone there. absurd (ground arith);
  }

  deleted_is :
      (k i : String) (e f : ServerSession Data) (m : GoMap String (ServerSession Data))
      → get k m ≡ some e
      → get i m ≡ some f
      → get i (delete k m) ≡ none
      → f ≡ e
  deleted_is k i e f m found h gone = ground (arith, get-delete k i m, eq_iff k i)

  undeleted :
      (k j : String) (g : ServerSession Data) (m : GoMap String (ServerSession Data))
      → get j (delete k m) ≡ some g
      → get j m ≡ some g
  undeleted k j g m h = ground (arith, get-delete k j m)

  evict_lru_lem :
      (m : GoMap String (ServerSession Data))
      → IsMap m
      → NoEmptyKey m
      → m ≢ []
      → (m' : GoMap String (ServerSession Data)) × (evict_lru Data m ≡ some m')
        × (suc (length m') ≡ length m)
        × IsEviction m m'
  evict_lru_lem m w n ne =
      let (e, found, least) = oldest_key_lem m w ne in
      let k = oldest_key Data m in
      let there = has_of_get k e m found in
      let named : (k == "") ≡ false = ground (arith, eq_iff k "") in
      (
        delete k m,
        unfold evict_lru in rw named,
        length-delete k m w there,
        record {
          is_map = delete-IsMap k m w;
          no_empty_key = ground (arith, has-delete k "" m);
          kept = λ i f h. undeleted k i f m h;
          oldest = λ i j f g h gone stays.
              let same : f ≡ e = deleted_is k i e f m found h gone in
              rw same (AtMost-get e.last_used j g m least (undeleted k j g m stays));
        },
      )

  IsEviction-trans :
      {a b c : GoMap String (ServerSession Data)} → IsEviction a b → IsEviction b c → IsEviction a c
  IsEviction-trans {a} {b} {c} f g = record {
    is_map = g.is_map;
    no_empty_key = g.no_empty_key;
    kept = λ k e h. f.kept k e (g.kept k e h);
    oldest = λ k j x y h gone stays. elim (Option-cases (get k b)) [
      | inl earlier ↦ f.oldest k j x y h earlier (g.kept j y stays)
      | inr (z, later) ↦
          let same : x ≡ z = cc (h, f.kept k z later) in rw same (g.oldest k j z y later gone stays)
    ];
  }

  full_is_not-nil :
      (most : ℕ) (m : GoMap String (ServerSession Data))
      → 0 < most
      → leb most (length m) ≡ true
      → m ≢ []
  full_is_not-nil most [] p full e = ground arith
  full_is_not-nil most (x ∷ m) p full e = cc

  evict_while_lem :
      (fuel most : ℕ) (m : GoMap String (ServerSession Data))
      → IsMap m
      → NoEmptyKey m
      → 0 < most
      → length m ≤ fuel
      → (length (evict_while Data fuel most m) < most) × IsEviction m (evict_while Data fuel most m)
  unfolding evict_while
  evict_while_lem zero most m w n p h = (omega arith, IsEviction-refl m w n)
  evict_while_lem (suc fuel) most m w n p h = elim (Bool-cases (leb most (length m))) [
    | inr room ↦ rw (room, evict_while) (ground arith, IsEviction-refl m w n)
    | inl full ↦
        let (m', gone, shorter, one) = evict_lru_lem m w n (λ e. full_is_not-nil most m p full e) in
        let (small, rest) =
          evict_while_lem fuel most m' one.is_map one.no_empty_key p (omega arith) in
        rw (full, evict_while) (rw (gone, evict_while) (small, IsEviction-trans one rest))
  ]

  pub make_room_lem :
      (most : ℕ) (m : GoMap String (ServerSession Data))
      → IsMap m
      → NoEmptyKey m
      → ((0 < most) → length (make_room Data most m) < most) × IsEviction m (make_room Data most m)
  unfolding make_room
  make_room_lem most m w n = elim (Bool-cases (ltb 0 most && leb most (length m))) [
    | inl full ↦
        let (small, evicted) = evict_while_lem (length m) most m w n (ground arith) (omega arith) in
        rw full ((λ p. small), evicted)
    | inr room ↦ rw room ((λ p. ground arith), IsEviction-refl m w n)
  ]

  -- If there is a limit, one session to a key and none under the empty key, making room for a new
  -- session ends with fewer sessions than the limit; it evicts the least recently used sessions
  -- and leaves the others as they were.
  pub make_room_bounded :
      (most : ℕ) (m : GoMap String (ServerSession Data))
      → 0 < most
      → IsMap m
      → NoEmptyKey m
      → (length (make_room Data most m) < most) × IsEviction m (make_room Data most m)
  make_room_bounded most m p w n =
      let (fits, evicted) = make_room_lem most m w n in (fits p, evicted)
