-- ===== src/Adapters/Laws.antt =====
-- The first adapter that is registered for a protocol is the one that is found.
use text.Mathlib.TextEquality.{eq_iff}
use moon_bridge.Prelude.{
  String, ◌≡◌, refl, sym, ◌∙◌, inl, inr, Option, none, some, List, [], ◌∷◌, if◌then◌else◌, ◌==◌,
  string_comparable, arith, Bool-cases, Option-cases,
}
use moon_bridge.Prelude.GoMap.{GoMap, get, has, get-put, has-get, get-has}
use moon_bridge.Adapters.{register}

module _ (A : Type 0) where
  unfoldable pub register_all : List (String × A) → GoMap String A → GoMap String A
  register_all [] m = m
  register_all ((protocol, a) ∷ ps) m = register_all ps (register A protocol a m).1

  abbrev pub or_else : Option A → Option A → Option A
  or_else none b = b
  or_else (some a) b = some a

  unfoldable pub first_for : String → List (String × A) → Option A
  first_for protocol [] = none
  first_for protocol ((p, a) ∷ ps) =
      let rest = first_for protocol ps in if p == protocol then some a else rest

  or_else-none : (a : Option A) → or_else a none ≡ a
  or_else-none none = refl
  or_else-none (some a) = refl

  get-register :
      (protocol p : String) (a : A) (m : GoMap String A)
      → get protocol (register A p a m).1
        ≡ or_else (get protocol m) (if p == protocol then some a else none)
  unfolding register
  get-register protocol p a m = elim (Option-cases (get protocol m)) [
    | inl free ↦ rw free (elim (Bool-cases (has p m)) [
      | inl taken ↦ rw taken (ground (arith, eq_iff p protocol, get-has protocol m free))
      | inr new ↦ rw new (ground (arith, get-put p protocol a m))
    ])
    | inr (b, found) ↦ rw found (elim (Bool-cases (has p m)) [
      | inl taken ↦ rw taken found
      | inr new ↦
          rw new (ground (arith, eq_iff p protocol, get-put p protocol a m, has-get p m new))
    ])
  ]

  -- After any registrations in one of the four maps, the adapter found for a protocol is the one
  -- that was there before, or else the first that was registered for it.
  pub get-register_all :
      (protocol : String) (ps : List (String × A)) (m : GoMap String A)
      → get protocol (register_all ps m) ≡ or_else (get protocol m) (first_for protocol ps)
  unfolding register_all first_for
  get-register_all protocol [] m = sym (or_else-none (get protocol m))
  get-register_all protocol ((p, a) ∷ ps) m =
      get-register_all protocol ps (register A p a m).1
      ∙ rw (get-register protocol p a m) (elim (Option-cases (get protocol m)) [
        | inl free ↦ rw free (ground arith)
        | inr (b, found) ↦ rw found refl
      ])
