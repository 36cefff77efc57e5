-- ===== src/Database/Tables/Names.antt =====
-- Which tables a consumer reaches through its store.
use text.Mathlib.TextEquality.{eq_iff}
use moon_bridge.Prelude.{
  String, ◌≡◌, refl, ◌∙◌, inl, inr, Bool, true, false, ◌||◌, none, some, List, [], ◌∷◌,
  if◌then◌else◌, ◌==◌, string_comparable, arith, Bool-cases,
}
use moon_bridge.Prelude.GoMap.{GoMap, get, put, get-put}
use moon_bridge.Database.Tables.{
  table_not_registered, TableSpec, real_table, table_names_of, new_bound_store, table,
}

unfoldable pub is_declared : String → List TableSpec → Bool
is_declared name [] = false
is_declared name (t ∷ ts) = t.name == name || is_declared name ts

get-table_names_of :
    (consumer name : String) (ts : List TableSpec) (names : GoMap String String)
    → get name (table_names_of consumer ts names)
      ≡ (if is_declared name ts then some (real_table consumer name) else get name names)
unfolding table_names_of is_declared
get-table_names_of consumer name [] names = refl
get-table_names_of consumer name (t ∷ ts) names = ground (
  arith,
  get-table_names_of consumer name ts (put t.name (real_table consumer t.name) names),
  get-put t.name name (real_table consumer t.name) names,
  eq_iff t.name name,
)

-- The store of a consumer resolves exactly the tables that the consumer declares, to the names
-- with its prefix, and gives an error for all others.
pub table-new_bound_store :
    (consumer name : String) (ts : List TableSpec)
    → table name (new_bound_store consumer ts) ≡ (
        if is_declared name ts
        then inr (real_table consumer name)
        else inl (table_not_registered name))
unfolding table
table-new_bound_store consumer name ts = elim (Bool-cases (is_declared name ts)) [
  | inl there ↦ rw there (rw (get-declared there, table) refl)
  | inr absent ↦ rw absent (rw (get-undeclared absent, table) refl)
]
  where
    get-declared :
        is_declared name ts ≡ true
        → get name (new_bound_store consumer ts).table_names ≡ some (real_table consumer name)
    get-declared there = ground (arith, get-table_names_of consumer name ts [])

    get-undeclared :
        is_declared name ts ≡ false → get name (new_bound_store consumer ts).table_names ≡ none
    get-undeclared absent = get-table_names_of consumer name ts [] ∙ rw absent (unfold get in refl)
