-- ===== src/ModelRef.antt =====
-- internal/modelref/modelref.go: `Parse`, over the code points of a text, with what it uses of Go's
-- `strings` (TrimSpace, LastIndex, HasSuffix, Cut). Texts are valid UTF-8.
pub mod Forms
mod Tests
use Prim.Native.Char.{Char, code}
use moon_bridge.Prelude.{
  ℕ, String, Bool, true, false, not, ◌&&◌, ◌||◌, Option, none, some, leb, if◌then◌else◌, ◌==◌,
  nat_comparable, string_comparable,
}

-- `unicode.IsSpace`
unfoldable pub is_space : ℕ → Bool
is_space c =
    leb 9 c && leb c 13
    || c == 32
    || c == 0x85
    || c == 0xa0
    || c == 0x1680
    || leb 0x2000 c && leb c 0x200a
    || c == 0x2028
    || c == 0x2029
    || c == 0x202f
    || c == 0x205f
    || c == 0x3000

-- `strings.TrimSpace`
pub trim_left : String → String
trim_left String.[] = ""
trim_left (String.◌∷◌ c s) = if is_space (code c) then trim_left s else String.◌∷◌ c s

pub trim_right : String → String
trim_right String.[] = ""
trim_right (String.◌∷◌ c s) =
    let rest = trim_right s in if is_space (code c) && rest == "" then "" else String.◌∷◌ c rest

unfoldable pub trim_space : String → String
unfolding is_space trim_left trim_right
trim_space s = trim_right (trim_left s)

-- The texts before and after the last occurrence of the character, `strings.LastIndex`.
unfoldable pub split_last : ℕ → String → Option (String × String)
split_last x String.[] = none
split_last x (String.◌∷◌ c s) = elim (split_last x s) [
  | some (a, b) ↦ some (String.◌∷◌ c a, b)
  | none ↦ if code c == x then some ("", s) else none
]

-- The texts before and after the first occurrence, `strings.Cut`.
unfoldable pub cut : ℕ → String → Option (String × String)
cut x String.[] = none
cut x (String.◌∷◌ c s) =
    if code c == x
    then some ("", s)
    else elim (cut x s) [ some (a, b) ↦ some (String.◌∷◌ c a, b) | none ↦ none ]

-- The text without its last character, if that is the character: `HasSuffix`, and the slice.
unfoldable pub strip_last : ℕ → String → Option String
strip_last x String.[] = none
strip_last x (String.◌∷◌ c s) = elim (strip_last x s) [
  | some a ↦ some (String.◌∷◌ c a)
  | none ↦ if code c == x && s == "" then some "" else none
]

-- The fall back of `Parse`, provider/model.
unfoldable pub parse_slash : String → String → String × String
parse_slash ref trimmed = elim (cut b'/' trimmed) [
  | some (before, after) ↦ (trim_space before, trim_space after)
  | none ↦ ("", ref)
]

-- What stands after the last "(" ends in ")" exactly if the whole reference does.
unfoldable pub parse_parens : String → Option (String × String)
parse_parens trimmed = elim (split_last b'(' trimmed) [
  | none ↦ none
  | some (model, rest) ↦ elim (strip_last b')' rest) [
    | none ↦ none
    | some provider ↦
        if not (provider == "") && not (model == "")
        then some (trim_space provider, trim_space model)
        else none
  ]
]

-- `Parse`: the provider and the model.
unfoldable pub parse : String → String × String
parse ref = elim (parse_parens (trim_space ref)) [
  | some parsed ↦ parsed
  | none ↦ parse_slash ref (trim_space ref)
]
