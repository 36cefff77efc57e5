-- ===== src/Database/Tests.antt =====
-- The database registry at concrete inputs.
use moon_bridge.Prelude.{
  String, ◌≡◌, refl, inr, Option, none, some, List, [], ◌∷◌, string_comparable, All,
}
use moon_bridge.Prelude.GoMap.{get, put, delete}
use moon_bridge.Database.Tables.{
  TableSpec, real_table, render_ddl, replace_from, contains, has_prefix, length_of,
  validate_consumer_tables, validate_tables, matches_name, all_name_chars,
}
use moon_bridge.Database.{
  Provider, Registry, new_registry, has_provider, register_provider, has_consumer, find_provider,
  select_provider, init, start, create_tables, init_consumer, init_consumers,
}
use moon_bridge.Database.Selection.{}
use moon_bridge.Database.Startup
use moon_bridge.Database.Startup.{IsSettled, init-IsSettled}

program : Unit {0}
unfolding get put delete has_provider register_provider has_consumer find_provider select_provider
    init start create_tables init_consumer init_consumers render_ddl replace_from contains
    has_prefix length_of validate_consumer_tables validate_tables matches_name all_name_chars
program = tt

abbrev sqlite : Provider
sqlite = record { name = "db_sqlite"; opens = none; pings = none }

abbrev d1 : Provider
d1 = record { name = "db_d1"; opens = none; pings = some "timeout" }

abbrev two : List Provider
two = sqlite ∷ d1 ∷ []

abbrev metrics : TableSpec
metrics = record { name = "request_metrics"; schema = "CREATE TABLE {{table}} ()"; indexes = [] }

-- The names of two consumers meet: the prefix does not keep their tables apart.
shared_table : real_table "a" "b_c" ≡ real_table "a_b" "c"
shared_table = refl

abbrev accepts : String → Option String
accepts ddl = none

abbrev registry : Registry
registry = record new_registry {
  providers = sqlite ∷ [];
  consumers =
      record { name = "metrics"; tables = metrics ∷ []; binds = none }
      ∷ record { name = "Bad"; tables = metrics ∷ []; binds = none }
      ∷ [];
}

consumers-Distinct : Startup.Distinct accepts registry.consumers
unfolding program
consumers-Distinct = (refl, (refl, tt))

initialised : (init accepts "" registry).0 ≡ none
unfolding program
initialised = refl

init-IsSettled_example : All (IsSettled accepts (init accepts "" registry).1) registry.consumers
init-IsSettled_example = init-IsSettled accepts "" registry consumers-Distinct initialised

rendered :
    render_ddl "CREATE TABLE {{table}} ()" "metrics_request_metrics" ""
    ≡ inr "CREATE TABLE metrics_request_metrics ()"
unfolding program
rendered = refl
