-- ===== src/Database/Tables.antt =====
-- internal/db/store.go: the names of tables and indexes, their validation and `RenderDDL`, with the
-- specifications of internal/db/consumer.go and the errors of internal/db/errors.go.
pub mod Names
use Prim.Native.Char.{code}
use Prim.Native.String.{◌++◌ as append}
use moon_bridge.Prelude.{
  ℕ, zero, suc, String, Bool, true, false, not, ◌&&◌, ◌||◌, ◌-◌, ◌⊎◌, inl, inr, Option, none, some,
  List, [], ◌∷◌, if◌then◌else◌, ◌==◌, leb, nat_comparable, string_comparable,
}
use moon_bridge.Prelude.GoMap.{GoMap, get, put}

-- The errors of errors.go, with what they are about, and those from outside.
pub data Error : Type 0 where
  no_provider : Error
  multiple_providers : Error
  provider_not_found : String → Error
  table_not_registered : String → Error
  name_invalid : String → Error
  no_tables : String → Error
  duplicate_table : String → Error
  no_placeholder : String → Error
  unresolved_placeholder : String → Error
  external : String → Error

pub record IndexSpec : Type 0 where
  pub name : String
  pub sql : String

pub record TableSpec : Type 0 where
  pub name : String
  pub schema : String
  pub indexes : List IndexSpec

abbrev pub is_lower : ℕ → Bool
is_lower c = leb b'a' c && leb c b'z'

unfoldable pub all_name_chars : String → Bool
all_name_chars String.[] = true
all_name_chars (String.◌∷◌ c s) =
    (is_lower (code c) || leb b'0' (code c) && leb (code c) b'9' || code c == b'_')
    && all_name_chars s

-- `namePattern`, `^[a-z][a-z0-9_]*$`
unfoldable pub matches_name : String → Bool
matches_name String.[] = false
matches_name (String.◌∷◌ c s) = is_lower (code c) && all_name_chars s

-- `ValidateConsumerName`, `ValidateTableName` and `ValidateIndexName`
abbrev pub validate_name : String → Option Error
validate_name name = if matches_name name then none else some (name_invalid name)

abbrev pub real_table : String → String → String
real_table consumer table = append consumer (append "_" table)

abbrev pub real_index : String → String → String → String
real_index consumer table index =
    append "idx_" (append consumer (append "_" (append table (append "_" index))))

-- `strings.HasPrefix`
unfoldable pub has_prefix : String → String → Bool
has_prefix String.[] s = true
has_prefix (String.◌∷◌ c p) String.[] = false
has_prefix (String.◌∷◌ c p) (String.◌∷◌ d s) = code c == code d && has_prefix p s

unfoldable pub length_of : String → ℕ
length_of String.[] = 0
length_of (String.◌∷◌ c s) = suc (length_of s)

-- `strings.ReplaceAll` for a text `old` that is not empty: `skip` characters of a match are left.
unfoldable pub replace_from : String → String → ℕ → String → String
replace_from old new skip String.[] = ""
replace_from old new (suc skip) (String.◌∷◌ c s) = replace_from old new skip s
replace_from old new zero (String.◌∷◌ c s) = elim (has_prefix old (String.◌∷◌ c s)) [
  | true ↦ append new (replace_from old new (length_of old - 1) s)
  | false ↦ String.◌∷◌ c (replace_from old new 0 s)
]

-- `strings.Contains`
unfoldable pub contains : String → String → Bool
contains s String.[] = has_prefix s ""
contains s (String.◌∷◌ c t) = has_prefix s (String.◌∷◌ c t) || contains s t

-- The loop over the indexes of a table.
unfoldable pub validate_indexes : List IndexSpec → Option Error
validate_indexes [] = none
validate_indexes (i ∷ is) =
    let rest = validate_indexes is in
    if not (matches_name i.name)
    then some (name_invalid i.name)
    else if not (contains "{{table}}" i.sql)
    then some (no_placeholder i.name)
    else if not (contains "{{index}}" i.sql)
    then some (no_placeholder i.name)
    else rest

unfoldable pub is_seen : String → List String → Bool
is_seen name [] = false
is_seen name (n ∷ ns) = n == name || is_seen name ns

-- The loop over the tables, with the names seen so far.
unfoldable pub validate_tables : List String → List TableSpec → Option Error
validate_tables seen [] = none
validate_tables seen (t ∷ ts) =
    let rest = validate_tables (t.name ∷ seen) ts in
    if not (matches_name t.name)
    then some (name_invalid t.name)
    else if is_seen t.name seen
    then some (duplicate_table t.name)
    else if not (contains "{{table}}" t.schema)
    then some (no_placeholder t.name)
    else elim (validate_indexes t.indexes) [ some e ↦ some e | none ↦ rest ]

-- `ValidateConsumerTables`
unfoldable pub validate_consumer_tables : String → List TableSpec → Option Error
validate_consumer_tables consumer tables =
    if not (matches_name consumer)
    then some (name_invalid consumer)
    else elim tables [ [] ↦ some (no_tables consumer) | t ∷ ts ↦ validate_tables [] (t ∷ ts) ]

-- `RenderDDL`
unfoldable pub render_ddl : String → String → String → Error ⊎ String
render_ddl ddl table index =
    let result = replace_from "{{index}}" index 0 (replace_from "{{table}}" table 0 ddl) in
    if contains "{{" result then inl (unresolved_placeholder result) else inr result

-- `boundStore`, with its table names; the connection and its dialect are those of the provider.
pub record BoundStore : Type 0 where
  pub consumer : String
  pub table_names : GoMap String String

unfoldable pub table_names_of : String → List TableSpec → GoMap String String → GoMap String String
table_names_of consumer [] names = names
table_names_of consumer (t ∷ ts) names =
    table_names_of consumer ts (put t.name (real_table consumer t.name) names)

-- `newBoundStore`
abbrev pub new_bound_store : String → List TableSpec → BoundStore
new_bound_store consumer tables = record {
  consumer = consumer;
  table_names = table_names_of consumer tables [];
}

-- `Table`
unfoldable pub table : String → BoundStore → Error ⊎ String
table name s = elim (get name s.table_names) [
  | none ↦ inl (table_not_registered name)
  | some real ↦ inr real
]
