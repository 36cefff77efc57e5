-- ===== src/Provider/Manager/Index.antt =====
-- The reverse index that `NewProviderManager` builds, against a scan of all providers.
use text.Mathlib.TextEquality.{eq_iff}
use mathlib.Core.List.Permᴰ
use mathlib.Core.List.{Permᴰ, append-nil, append_assoc}
use moon_bridge.Prelude.{
  String, ◌≡◌, refl, sym, ◌∙◌, Bool, true, false, not, ◌&&◌, List, [], ◌∷◌, ◌++◌, if◌then◌else◌,
  ◌==◌, string_comparable, arith,
}
use moon_bridge.Prelude.Int.{pos}
use moon_bridge.Prelude.GoMap.{GoMap, get, get-put}
use moon_bridge.Provider.Order.{ModelProviderEntry, sort_entries}
use moon_bridge.Provider.Order.Laws.{sort_entries-perm}
use moon_bridge.Provider.Manager.{
  OfferEntry, ProviderConfig, offer_model, is_offered, Index, entries_of, index_append, index_names,
  index_offers, build_index,
}

-- The entries of one model, read off the providers directly: the catalogue names that no offer
-- covers, at priority 0, and the offers at their own priority.
unfoldable pub named_entries :
    String → String → List OfferEntry → List String → List ModelProviderEntry
named_entries m key offers [] = []
named_entries m key offers (n ∷ ns) =
    let rest = named_entries m key offers ns in
    if n == m && not (is_offered n offers)
    then record { provider_key = key; priority = pos 0 } ∷ rest
    else rest

unfoldable pub offered_entries : String → String → List OfferEntry → List ModelProviderEntry
offered_entries m key [] = []
offered_entries m key (o ∷ os) =
    let rest = offered_entries m key os in
    if offer_model o == m && not (offer_model o == "")
    then record { provider_key = key; priority = o.priority } ∷ rest
    else rest

abbrev pub entries_at : String → String × ProviderConfig → List ModelProviderEntry
entries_at m (key, cfg) =
    named_entries m key cfg.offers cfg.model_names ++ offered_entries m key cfg.offers

abbrev pub scan_entries : String → GoMap String ProviderConfig → List ModelProviderEntry
scan_entries m [] = []
scan_entries m (p ∷ ps) = entries_at m p ++ scan_entries m ps

entries_of-index_append :
    (m n : String) (e : ModelProviderEntry) (idx : Index)
    → entries_of m (index_append n e idx)
      ≡ (if n == m then entries_of m idx ++ e ∷ [] else entries_of m idx)
unfolding index_append entries_of
entries_of-index_append m n e idx =
    ground (arith, get-put n m (entries_of n idx ++ e ∷ []) idx, eq_iff n m)

-- One entry goes to the model that it names, behind the entries that are there.
append_if :
    (b c : Bool) (xs rest : List ModelProviderEntry) (e : ModelProviderEntry)
    {ys : List ModelProviderEntry}
    → ys ≡ (if b then xs else if c then xs ++ e ∷ [] else xs)
    → ys ++ rest ≡ xs ++ (if c && not b then e ∷ rest else rest)
append_if true true xs rest e h = rw h
append_if true false xs rest e h = rw h
append_if false true xs rest e h = rw h (append_assoc xs (e ∷ []) rest)
append_if false false xs rest e h = rw h

entries_of-index_names :
    (m key : String) (offers : List OfferEntry) (ns : List String) (idx : Index)
    → entries_of m (index_names key offers ns idx)
      ≡ entries_of m idx ++ named_entries m key offers ns
unfolding index_names named_entries
entries_of-index_names m key offers [] idx = sym (append-nil _)
entries_of-index_names m key offers (n ∷ ns) idx =
    entries_of-index_names m key offers ns _
    ∙ append_if (is_offered n offers) (n == m) (entries_of m idx) _
        (record { provider_key = key; priority = pos 0 })
        (ground (
          arith,
          entries_of-index_append m n (record { provider_key = key; priority = pos 0 }) idx,
        ))

entries_of-index_offers :
    (m key : String) (os : List OfferEntry) (idx : Index)
    → entries_of m (index_offers key os idx) ≡ entries_of m idx ++ offered_entries m key os
unfolding index_offers offered_entries
entries_of-index_offers m key [] idx = sym (append-nil _)
entries_of-index_offers m key (o ∷ os) idx =
    entries_of-index_offers m key os _
    ∙ append_if (offer_model o == "") (offer_model o == m) (entries_of m idx) _
        (record { provider_key = key; priority = o.priority })
        (ground (
          arith,
          entries_of-index_append m (offer_model o)
              (record { provider_key = key; priority = o.priority }) idx,
        ))

entries_of-build_index :
    (m : String) (ps : GoMap String ProviderConfig) (idx : Index)
    → entries_of m (build_index ps idx) ≡ entries_of m idx ++ scan_entries m ps
unfolding build_index
entries_of-build_index m [] idx = sym (append-nil _)
entries_of-build_index m ((key, cfg) ∷ ps) idx =
    entries_of-build_index m ps _
    ∙ rw (entries_of-index_offers m key cfg.offers)
        (rw (entries_of-index_names m key cfg.offers cfg.model_names idx) (simp append_assoc))

entries_of-empty : (m : String) → entries_of m [] ≡ []
unfolding entries_of get
entries_of-empty m = refl

-- The reverse index answers, for every model, what a direct scan of all providers answers: the
-- catalogue names that no offer of the provider covers, at priority 0, and the offers at their
-- own.
pub entries_of-index :
    (m : String) (ps : GoMap String ProviderConfig)
    → entries_of m (build_index ps []) ≡ scan_entries m ps
entries_of-index m ps = entries_of-build_index m ps [] ∙ rw entries_of-empty

swap_parts : (xs ys zs : List ModelProviderEntry) → Permᴰ (xs ++ (ys ++ zs)) (ys ++ (xs ++ zs))
swap_parts xs ys zs =
    rw (← append_assoc xs ys zs)
      (rw (← append_assoc ys xs zs) (Permᴰ.append_right zs (Permᴰ.append_comm xs ys)))

scan_entries-perm :
    (m : String) {ps qs : GoMap String ProviderConfig}
    → Permᴰ ps qs
    → Permᴰ (scan_entries m ps) (scan_entries m qs)
scan_entries-perm m Permᴰ.nil = Permᴰ.nil
scan_entries-perm m (Permᴰ.cons {b = b} e p) =
    rw e (Permᴰ.append_left (entries_at m b) (scan_entries-perm m p))
scan_entries-perm m (Permᴰ.swap {a' = a'} {b' = b'} {l = l} e f) =
    rw e (rw f (swap_parts (entries_at m b') (entries_at m a') (scan_entries m l)))
scan_entries-perm m (Permᴰ.trans p q) = Permᴰ.trans (scan_entries-perm m p) (scan_entries-perm m q)

-- Go visits the map of providers in any order: the sorted entries of a model, and so the order of
-- its candidates, are the same for any two orders.
pub sorted_index-perm :
    (m : String) {ps qs : GoMap String ProviderConfig}
    → Permᴰ ps qs
    → sort_entries (entries_of m (build_index ps []))
      ≡ sort_entries (entries_of m (build_index qs []))
sorted_index-perm m {ps} {qs} p =
    rw (entries_of-index m ps)
      (rw (entries_of-index m qs) (sort_entries-perm (scan_entries-perm m p)))
