-- ===== src/Format/Strip.antt =====
-- `StripImageData` and `StripContentBlocks` of internal/format/types.go, over the code points of a
-- text. Texts are valid UTF-8; the markers and the data are ASCII, so their code points are their bytes.
pub mod Fuel
use Prim.Native.Char.{code}
use Prim.Native.String.{◌++◌ as append}
use moon_bridge.Prelude.{
  ℕ, zero, suc, ◌+◌, String, Bool, ◌&&◌, ◌||◌, Option, none, some, List, [], ◌∷◌, map, leb, ltb,
  if◌then◌else◌, ◌==◌, nat_comparable, string_comparable,
}
use moon_bridge.Cache.Select.{itoa}
use moon_bridge.Format.Blocks.{CoreFields, CoreContentBlock, CoreBlocks, block, nil, cons}

-- The number of code points.
unfoldable pub size : String → ℕ
size String.[] = 0
size (String.◌∷◌ c s) = suc (size s)

-- `len(s)`, the bytes of UTF-8.
unfoldable pub byte_size : String → ℕ
byte_size String.[] = 0
byte_size (String.◌∷◌ c s) =
    (if ltb (code c) 0x80
      then 1
      else if ltb (code c) 0x800
      then 2
      else if ltb (code c) 0x10000
      then 3
      else 4)
    + byte_size s

-- The text behind a prefix.
unfoldable pub strip_prefix : String → String → Option String
strip_prefix String.[] s = some s
strip_prefix (String.◌∷◌ p ps) String.[] = none
strip_prefix (String.◌∷◌ p ps) (String.◌∷◌ c s) =
    let rest = strip_prefix ps s in if code p == code c then rest else none

-- The texts before and after the first occurrence of a marker, by `strings.Index`.
unfoldable pub index_of : String → String → Option (String × String)
index_of marker String.[] = none
index_of marker (String.◌∷◌ c s) = elim (strip_prefix marker (String.◌∷◌ c s)) [
  | some rest ↦ some ("", rest)
  | none ↦ elim (index_of marker s) [
    | some (before, after) ↦ some (String.◌∷◌ c before, after)
    | none ↦ none
  ]
]

-- `isBase64Char`, or the padding.
abbrev pub is_data : ℕ → Bool
is_data c =
    leb b'a' c && leb c b'z'
    || leb b'A' c && leb c b'Z'
    || leb b'0' c && leb c b'9'
    || c == b'+'
    || c == b'/'
    || c == b'='

-- The loops over `end`: the longest run of data, and what is behind it.
unfoldable pub data_run : String → String × String
data_run String.[] = ("", "")
data_run (String.◌∷◌ c s) =
    let (run, rest) = data_run s in
    if is_data (code c) then (String.◌∷◌ c run, rest) else ("", String.◌∷◌ c s)

-- `[Image data: png, 600 bytes]`
unfoldable pub placeholder : String → ℕ → String
placeholder kind bytes =
    append "[Image data: " (append kind (append ", " (append (itoa bytes) " bytes]")))

-- A round of the loop: what it writes, and the rest of the text if it goes on.
pub data Round : Type 0 where
  ends : String → Round
  goes_on : String → String → Round

-- The part of a round for a data URL, behind its marker.
unfoldable pub url_round : String → String → Round
url_round before after = elim (index_of ";base64," after) [
  | none ↦ goes_on (append before "data:image/") after
  | some (kind, encoded) ↦
      let (run, rest) = data_run encoded in
      if ltb 500 (size run)
      then goes_on (append before (placeholder kind (size run))) rest
      else goes_on (append before (append "data:image/" (append kind (append ";base64," run)))) rest
]

-- The part for raw data, whose marker is data itself.
unfoldable pub raw_round : String → String → String → String → Round
raw_round marker kind before after =
    let (run, rest) = data_run after in
    if ltb 500 (size marker + size run)
    then goes_on (append before (placeholder kind (size marker + size run))) rest
    else goes_on (append before (append marker run)) rest

unfoldable pub strip_round : String → Round
strip_round s = elim (index_of "data:image/" s) [
  | some (before, after) ↦ url_round before after
  | none ↦ elim (index_of "iVBORw0KGgo" s) [
    | some (before, after) ↦ raw_round "iVBORw0KGgo" "png" before after
    | none ↦ elim (index_of "/9j/" s) [
      | some (before, after) ↦ raw_round "/9j/" "jpeg" before after
      | none ↦ ends s
    ]
  ]
]

-- The loop over `pos`.
unfoldable pub strip_loop : ℕ → String → String
strip_loop zero s = ""
strip_loop (suc fuel) String.[] = ""
strip_loop (suc fuel) (String.◌∷◌ c s) = elim (strip_round (String.◌∷◌ c s)) [
  | ends text ↦ text
  | goes_on text rest ↦ append text (strip_loop fuel rest)
]

-- `StripImageData`
unfoldable pub strip_image_data : String → String
strip_image_data s = if ltb (byte_size s) 100 then s else strip_loop (size s) s

-- The fields of a block in `StripContentBlocks`.
unfoldable pub strip_fields : CoreFields → CoreFields
strip_fields f =
    if f.kind == "text" || f.kind == "" then record f { text = strip_image_data f.text } else f

unfoldable mutual
  -- A round of the loop of `StripContentBlocks`.
  pub strip_block : CoreContentBlock → CoreContentBlock
  strip_block (block f bs) =
      let nested = strip_blocks bs in
      block (strip_fields f) (if f.kind == "tool_result" then nested else bs)

  -- `StripContentBlocks`, on the nested lists.
  pub strip_blocks : CoreBlocks → CoreBlocks
  strip_blocks nil = nil
  strip_blocks (cons b bs) = cons (strip_block b) (strip_blocks bs)

-- `StripContentBlocks`
abbrev pub strip_content_blocks : List CoreContentBlock → List CoreContentBlock
strip_content_blocks bs = map strip_block bs
