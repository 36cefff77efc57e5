-- ===== src/Provider/Order.antt =====
-- The order of the dynamic candidates, and the sort by it: `sort.Slice` with the comparison of
-- `ResolveModel` in internal/service/provider/manager.go. The comparison is total, so an insertion
-- sort gives the one result that any sort gives.
pub mod Laws
use Prim.Native.Nat.{Ordering}
use Prim.Native.String.{compare}
use moon_bridge.Prelude.{
  ℕ, String, Bool, true, false, not, ◌&&◌, ◌||◌, List, [], ◌∷◌, ltb, if◌then◌else◌, ◌==◌,
  nat_comparable,
}
use moon_bridge.Prelude.Int.{ℤ, ltb_ℤ}

-- `modelProviderEntry`
pub record ModelProviderEntry : Type 0 where
  pub provider_key : String
  pub priority : ℤ

-- Go compares texts by their bytes, which is the order of their code points.
abbrev pub text_lt : String → String → Bool
text_lt a b = elim (compare a b) [ Ordering.lt ↦ true | _ ↦ false ]

-- The comparison: by priority, then by key.
unfoldable pub entry_less : ModelProviderEntry → ModelProviderEntry → Bool
entry_less a b =
    if ltb_ℤ a.priority b.priority || ltb_ℤ b.priority a.priority
    then ltb_ℤ a.priority b.priority
    else text_lt a.provider_key b.provider_key

unfoldable pub insert_entry : ModelProviderEntry → List ModelProviderEntry → List ModelProviderEntry
insert_entry e [] = e ∷ []
insert_entry e (x ∷ xs) = if entry_less x e then x ∷ insert_entry e xs else e ∷ x ∷ xs

unfoldable pub sort_entries : List ModelProviderEntry → List ModelProviderEntry
sort_entries [] = []
sort_entries (e ∷ es) = insert_entry e (sort_entries es)
