-- ===== src/Anthropic/Schema.antt =====
-- `cleanSchema` of internal/protocol/anthropic/adapter.go.
pub mod Clean
use moon_bridge.Prelude.{String, Option, none, some}
use moon_bridge.Format.Json.{
  Json, Jsons, Members, null, array, object, nil_object, nil, cons, end, member,
}

-- The nil map where nothing is left.
abbrev pub or_nil : Members → Option Members
or_nil end = none
or_nil (member k v ms) = some (member k v ms)

-- A nil map as a value.
abbrev pub value_of : Option Members → Json
value_of none = nil_object
value_of (some ms) = object ms

-- A list is kept where something is left of it.
abbrev pub keep_array : Jsons → Members → (Json → Members → Members) → Members
keep_array nil rest add = rest
keep_array (cons v vs) rest add = add (array (cons v vs)) rest

-- A map in a list is kept where something is left of it.
abbrev pub keep_item : Option Members → Jsons → Jsons
keep_item none rest = rest
keep_item (some ms) rest = cons (object ms) rest

unfoldable mutual
  -- The loop of `cleanSchema` over the members of a map.
  pub clean_members : Members → Members
  clean_members end = end
  clean_members (member k v ms) = clean_member k v (clean_members ms)

  -- One round of it, on the value: the member is written in front of the cleaned rest, or dropped.
  pub clean_member : String → Json → Members → Members
  clean_member k null rest = rest
  clean_member k nil_object rest = member k nil_object rest
  clean_member k (object end) rest = member k (object end) rest
  clean_member k (object (member j v ms)) rest =
      member k (value_of (or_nil (clean_members (member j v ms)))) rest
  clean_member k (array vs) rest = keep_array (clean_items vs) rest (member k)
  clean_member k v rest = member k v rest

  -- The loop over the items of a list.
  pub clean_items : Jsons → Jsons
  clean_items nil = nil
  clean_items (cons v vs) = clean_item v (clean_items vs)

  pub clean_item : Json → Jsons → Jsons
  clean_item null rest = rest
  clean_item nil_object rest = rest
  clean_item (object ms) rest = keep_item (or_nil (clean_members ms)) rest
  clean_item v rest = cons v rest

-- `cleanSchema`
unfoldable pub clean_schema : Option Members → Option Members
clean_schema none = none
clean_schema (some ms) = or_nil (clean_members ms)
