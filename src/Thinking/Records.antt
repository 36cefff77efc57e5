-- ===== src/Thinking/Records.antt =====
-- One of the two maps of `State` in internal/extension/deepseek_v4/state.go, with the order in which
-- its keys came: it holds at most `limit` records, and the oldest go first.
pub mod Laws
use moon_bridge.Prelude.{
  ℕ, String, Bool, List, [], ◌∷◌, ◌++◌, if◌then◌else◌, ltb, length, string_comparable,
}
use moon_bridge.Prelude.GoMap.{GoMap, put, has, delete}
use moon_bridge.Thinking.Block.{CoreContentBlock}

pub record Store : Type 0 where
  pub records : GoMap String CoreContentBlock
  pub order : List String

abbrev pub empty_store : Store
empty_store = record { records = []; order = [] }

-- A key that is new goes to the end of the order, and its record is written.
unfoldable pub insert_new : String → CoreContentBlock → Store → Store
insert_new key block s = record {
  order = if has key s.records then s.order else s.order ++ key ∷ [];
  records = put key block s.records;
}

-- The loop of `pruneLocked`: while the order is too long, its first key goes with its record.
unfoldable pub prune_loop : ℕ → List String → GoMap String CoreContentBlock → Store
prune_loop limit [] records = record { records = records; order = [] }
prune_loop limit (key ∷ keys) records =
    let rest = prune_loop limit keys (delete key records) in
    if ltb limit (length (key ∷ keys))
    then rest
    else record { records = records; order = key ∷ keys }

abbrev pub prune_store : ℕ → Store → Store
prune_store limit s = prune_loop limit s.order s.records
