-- ===== src/Database/Selection.antt =====
-- Which provider `selectProvider` chooses, and what the registry keeps of the providers.
use text.Mathlib.TextEquality.{eq_iff}
use moon_bridge.Prelude.{
  String, ◌≡◌, refl, sym, ap, ◌∙◌, ◌≢◌, ◌⊎◌, inl, inr, true, false, ◌||◌, Option, none, some, List,
  [], ◌∷◌, ◌++◌, ◌==◌, string_comparable, arith, Bool-cases, In,
}
use moon_bridge.Database.{
  Provider, Registry, has_provider, register_provider, find_provider, select_provider,
}

-- Providers with distinct names.
abbrev pub Distinct : List Provider → Type 0
Distinct [] = Unit
Distinct (p ∷ ps) = (has_provider p.name ps ≡ false) × Distinct ps

has_provider-snoc :
    (name : String) (ps : List Provider) (p : Provider)
    → has_provider name (ps ++ p ∷ []) ≡ (has_provider name ps || p.name == name)
unfolding has_provider
has_provider-snoc name [] p = ground arith
has_provider-snoc name (q ∷ ps) p = ground (arith, has_provider-snoc name ps p)

Distinct-snoc :
    (ps : List Provider) (p : Provider)
    → has_provider p.name ps ≡ false
    → Distinct ps
    → Distinct (ps ++ p ∷ [])
unfolding has_provider
Distinct-snoc [] p new d = (refl, tt)
Distinct-snoc (q ∷ ps) p new d = (
  ground (arith, has_provider-snoc q.name ps p, eq_iff q.name p.name, eq_iff p.name q.name, d.0),
  Distinct-snoc ps p (ground arith) d.1,
)

register_provider-Distinct :
    (p : Provider) (r : Registry)
    → Distinct r.providers
    → Distinct (register_provider p r).providers
unfolding register_provider
register_provider-Distinct p r d = elim (Bool-cases (has_provider p.name r.providers)) [
  | inl old ↦ rw old d
  | inr new ↦ rw new (Distinct-snoc r.providers p new d)
]

unfoldable pub register_all : List Provider → Registry → Registry
register_all [] r = r
register_all (p ∷ ps) r = register_all ps (register_provider p r)

-- Whatever providers are registered, in whatever order, the names of the registered ones stay
-- distinct.
pub register_all-Distinct :
    (ps : List Provider) (r : Registry)
    → Distinct r.providers
    → Distinct (register_all ps r).providers
unfolding register_all
register_all-Distinct [] r d = d
register_all-Distinct (p ∷ ps) r d =
    register_all-Distinct ps (register_provider p r) (register_provider-Distinct p r d)

has_provider-In : (p : Provider) (ps : List Provider) → In p ps → has_provider p.name ps ≡ true
unfolding has_provider
has_provider-In p [] i = elim i [ ]
has_provider-In p (q ∷ ps) (inl e) = rw (← e) (ground (arith, eq_iff p.name p.name))
has_provider-In p (q ∷ ps) (inr i) = ground (arith, has_provider-In p ps i)

find_provider-In :
    (p : Provider) (ps : List Provider) → Distinct ps → In p ps → find_provider p.name ps ≡ some p
unfolding find_provider
find_provider-In p [] d i = elim i [ ]
find_provider-In p (q ∷ ps) d (inl e) = rw (← e) (ground (arith, eq_iff p.name p.name))
find_provider-In p (q ∷ ps) d (inr i) =
    let there = has_provider-In p ps i in
    ground (arith, eq_iff q.name p.name, d.0, find_provider-In p ps d.1 i)

find_provider-found :
    (name : String) (ps : List Provider) (p : Provider)
    → find_provider name ps ≡ some p
    → In p ps × (p.name ≡ name)
unfolding find_provider
find_provider-found name [] p h = absurd (ground arith)
find_provider-found name (q ∷ ps) p h = elim (Bool-cases (q.name == name)) [
  | inl here ↦
      let same : q ≡ p = ground arith in
      (inl (sym same), rw (← same) (ground (arith, eq_iff q.name name)))
  | inr there ↦ let (i, named) = find_provider-found name ps p (ground arith) in (inr i, named)
]

-- Among providers with distinct names, the one that is named is chosen, if its name is not empty.
pub select_provider-In :
    (p : Provider) (ps : List Provider)
    → Distinct ps
    → In p ps
    → p.name ≢ ""
    → select_provider p.name ps ≡ inr p
unfolding select_provider
select_provider-In p [] d i ne = elim i [ ]
select_provider-In p (q ∷ []) d (inl e) ne = rw (← e) (ground (arith, eq_iff p.name p.name))
select_provider-In p (q ∷ []) d (inr i) ne = elim i [ ]
select_provider-In p (q ∷ q' ∷ ps) d i ne =
    let named : (p.name == "") ≡ false = ground (arith, eq_iff p.name "") in
    rw named (rw (find_provider-In p (q ∷ q' ∷ ps) d i) refl)

-- The provider that `selectProvider` chooses is one of the registered; it has the name that was
-- asked for, or none was asked for and it is the only one.
pub select_provider_sound :
    (name : String) (ps : List Provider) (p : Provider)
    → select_provider name ps ≡ inr p
    → In p ps × ((p.name ≡ name) ⊎ ((name ≡ "") × (ps ≡ p ∷ [])))
unfolding select_provider
select_provider_sound name [] p h = absurd (ground arith)
select_provider_sound name (q ∷ []) p h = elim (Bool-cases (name == "")) [
  | inl blank ↦
      let same : q ≡ p = ground arith in
      (inl (sym same), inr (ground (arith, eq_iff name ""), rw same refl))
  | inr named ↦
      let same : q ≡ p = ground arith in
      (inl (sym same), inl (rw (← same) (ground (arith, eq_iff name q.name))))
]
select_provider_sound name (q ∷ q' ∷ ps) p h = go (find_provider name (q ∷ q' ∷ ps)) refl
  where
    go :
        (o : Option Provider)
        → find_provider name (q ∷ q' ∷ ps) ≡ o
        → In p (q ∷ q' ∷ ps) × ((p.name ≡ name) ⊎ ((name ≡ "") × (q ∷ q' ∷ ps ≡ p ∷ [])))
    go none e = absurd (ground arith)
    go (some r) e =
        let same : r ≡ p = ground arith in
        let (i, named) = find_provider-found name (q ∷ q' ∷ ps) p (e ∙ ap (λ x. some x) same) in
        (i, inl named)
