-- ===== src/Format/Json.antt =====
-- The values that Go's `any` holds for JSON, and `map[string]any`. A map is a list of members, in the
-- order in which a `range` loop happens to visit it; `nil_object` is a map that is nil, which is not
-- the `nil` of an `any`, and prints as null.
use moon_bridge.Prelude.{String, Bool, Option, none, some, if◌then◌else◌, ◌==◌, string_comparable}

mutual
  pub data Json : Type 0 where
    null : Json
    flag : Bool → Json
    number : String → Json
    text : String → Json
    array : Jsons → Json
    object : Members → Json
    nil_object : Json

  pub data Jsons : Type 0 where
    nil : Jsons
    cons : Json → Jsons → Jsons

  pub data Members : Type 0 where
    end : Members
    member : String → Json → Members → Members

-- `m[k]`
unfoldable pub lookup : String → Members → Option Json
lookup k end = none
lookup k (member j v ms) = let rest = lookup k ms in if j == k then some v else rest

-- `value.(string)`, and the empty text where it is none.
abbrev pub text_of : Option Json → String
text_of (some (text s)) = s
text_of _ = ""

-- `value.(map[string]any)`
abbrev pub members_of : Option Json → Option Members
members_of (some (object ms)) = some ms
members_of (some nil_object) = some end
members_of _ = none
