-- ===== src/Anthropic/Schema/Clean.antt =====
-- What `cleanSchema` leaves, and that cleaning again changes nothing.
use moon_bridge.Prelude.{String, ◌≡◌, refl, Option, none, some}
use moon_bridge.Format.Json.{
  Json, Jsons, Members, null, flag, number, array, object, nil_object, nil, cons, end, member,
}
use moon_bridge.Anthropic.Schema.{
  or_nil, value_of, keep_array, keep_item, clean_members, clean_member, clean_items, clean_item,
  clean_schema,
}

-- A map without nil values, at any depth that cleaning reaches: lists are not empty, maps in a list are
-- neither nil nor empty, and a list directly in a list is not looked into.
unfoldable mutual
  pub AreClean : Members → Type 0
  AreClean end = Unit
  AreClean (member k v ms) = IsClean v × AreClean ms

  pub IsClean : Json → Type 0
  IsClean null = ⊥
  IsClean (object ms) = AreClean ms
  IsClean (array nil) = ⊥
  IsClean (array (cons v vs)) = IsCleanItem v × AreCleanItems vs
  IsClean v = Unit

  pub AreCleanItems : Jsons → Type 0
  AreCleanItems nil = Unit
  AreCleanItems (cons v vs) = IsCleanItem v × AreCleanItems vs

  pub IsCleanItem : Json → Type 0
  IsCleanItem null = ⊥
  IsCleanItem nil_object = ⊥
  IsCleanItem (object end) = ⊥
  IsCleanItem (object (member k v ms)) = IsClean v × AreClean ms
  IsCleanItem v = Unit

value_of-IsClean : (ms : Members) → AreClean ms → IsClean (value_of (or_nil ms))
unfolding AreClean
value_of-IsClean end h = tt
value_of-IsClean (member k v ms) h = h

keep_item-AreClean :
    (ms : Members) (rest : Jsons)
    → AreClean ms
    → AreCleanItems rest
    → AreCleanItems (keep_item (or_nil ms) rest)
unfolding AreClean
keep_item-AreClean end rest h r = r
keep_item-AreClean (member k v ms) rest h r = (h, r)

keep_array-AreClean :
    (k : String) (vs : Jsons) (rest : Members)
    → AreCleanItems vs
    → AreClean rest
    → AreClean (keep_array vs rest (member k))
unfolding AreClean
keep_array-AreClean k nil rest h r = r
keep_array-AreClean k (cons v vs) rest h r = (h, r)

mutual
  unfolding clean_members AreClean

  clean_members-AreClean : (ms : Members) → AreClean (clean_members ms)
  clean_members-AreClean end = tt
  clean_members-AreClean (member k v ms) =
      clean_member-AreClean k v (clean_members ms) (clean_members-AreClean ms)

  clean_member-AreClean :
      (k : String) (v : Json) (rest : Members) → AreClean rest → AreClean (clean_member k v rest)
  clean_member-AreClean k null rest r = r
  clean_member-AreClean k nil_object rest r = (tt, r)
  clean_member-AreClean k (object end) rest r = (tt, r)
  clean_member-AreClean k (object (member j v ms)) rest r =
      (value_of-IsClean (clean_members (member j v ms)) (clean_members-AreClean (member j v ms)), r)
  clean_member-AreClean k (array vs) rest r =
      keep_array-AreClean k (clean_items vs) rest (clean_items-AreClean vs) r
  clean_member-AreClean k (flag b) rest r = (tt, r)
  clean_member-AreClean k (number n) rest r = (tt, r)
  clean_member-AreClean k (Json.text t) rest r = (tt, r)

  clean_items-AreClean : (vs : Jsons) → AreCleanItems (clean_items vs)
  clean_items-AreClean nil = tt
  clean_items-AreClean (cons v vs) =
      clean_item-AreClean v (clean_items vs) (clean_items-AreClean vs)

  clean_item-AreClean :
      (v : Json) (rest : Jsons) → AreCleanItems rest → AreCleanItems (clean_item v rest)
  clean_item-AreClean null rest r = r
  clean_item-AreClean nil_object rest r = r
  clean_item-AreClean (object ms) rest r =
      keep_item-AreClean (clean_members ms) rest (clean_members-AreClean ms) r
  clean_item-AreClean (array vs) rest r = (tt, r)
  clean_item-AreClean (flag b) rest r = (tt, r)
  clean_item-AreClean (number n) rest r = (tt, r)
  clean_item-AreClean (Json.text t) rest r = (tt, r)

-- Cleaning keeps what is clean.
mutual
  unfolding clean_members AreClean

  clean_members_clean : (ms : Members) → AreClean ms → clean_members ms ≡ ms
  clean_members_clean end h = refl
  clean_members_clean (member k v ms) h =
      rw (clean_members_clean ms h.1) (clean_member_clean k v ms h.0)

  clean_member_clean :
      (k : String) (v : Json) (rest : Members) → IsClean v → clean_member k v rest ≡ member k v rest
  clean_member_clean k null rest h = absurd h
  clean_member_clean k nil_object rest h = refl
  clean_member_clean k (object end) rest h = refl
  clean_member_clean k (object (member j v ms)) rest h =
      rw (clean_members_clean (member j v ms) h) refl
  clean_member_clean k (array nil) rest h = absurd h
  clean_member_clean k (array (cons v vs)) rest h = rw (clean_items_clean (cons v vs) h) refl
  clean_member_clean k (flag b) rest h = refl
  clean_member_clean k (number n) rest h = refl
  clean_member_clean k (Json.text t) rest h = refl

  clean_items_clean : (vs : Jsons) → AreCleanItems vs → clean_items vs ≡ vs
  clean_items_clean nil h = refl
  clean_items_clean (cons v vs) h = rw (clean_items_clean vs h.1) (clean_item_clean v vs h.0)

  clean_item_clean : (v : Json) (rest : Jsons) → IsCleanItem v → clean_item v rest ≡ cons v rest
  clean_item_clean null rest h = absurd h
  clean_item_clean nil_object rest h = absurd h
  clean_item_clean (object end) rest h = absurd h
  clean_item_clean (object (member k v ms)) rest h = rw (clean_members_clean (member k v ms) h) refl
  clean_item_clean (array vs) rest h = refl
  clean_item_clean (flag b) rest h = refl
  clean_item_clean (number n) rest h = refl
  clean_item_clean (Json.text t) rest h = refl

-- What `cleanSchema` returns, if it is not nil.
abbrev pub IsCleanSchema : Option Members → Type 0
IsCleanSchema none = Unit
IsCleanSchema (some ms) = AreClean ms

clean_schema_of :
    (ms : Members)
    → AreClean ms
    → (IsCleanSchema (or_nil ms) × (clean_schema (or_nil ms) ≡ or_nil ms))
unfolding clean_schema
clean_schema_of end h = (tt, refl)
clean_schema_of (member k v ms) h = (h, rw (clean_members_clean (member k v ms) h) refl)

-- `cleanSchema` leaves a schema without nulls as values, empty lists, or nil and empty maps as
-- items of a list, wherever it looks, and cleaning again changes nothing; a nil map may stand as
-- a value.
pub clean_schema-clean_schema :
    (s : Option Members)
    → IsCleanSchema (clean_schema s) × (clean_schema (clean_schema s) ≡ clean_schema s)
unfolding clean_schema
clean_schema-clean_schema none = (tt, refl)
clean_schema-clean_schema (some ms) = clean_schema_of (clean_members ms) (clean_members-AreClean ms)
