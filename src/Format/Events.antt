-- ===== src/Format/Events.antt =====
-- The stream events of internal/format/types.go. The index of a block is never negative.
use moon_bridge.Prelude.{ℕ, String, Option, none}
use moon_bridge.Format.Json.{Members, end}
use moon_bridge.Format.Blocks.{CoreContentBlock}
use moon_bridge.Format.Messages.{CoreUsage, CoreError}

-- The constants of `CoreStreamEventType`; `no_type` is the empty text.
pub data EventType : Type 0 where
  no_type : EventType
  created in_progress completed incomplete failed : EventType
  block_started block_delta block_done : EventType
  text_delta text_done : EventType
  args_delta args_done : EventType
  item_added item_done : EventType
  ping : EventType

-- `CoreStreamEvent`
pub record CoreStreamEvent : Type 0 where
  pub kind : EventType
  pub seq_num : ℕ
  pub status : String
  pub model : String
  pub error : Option CoreError
  pub index : ℕ
  pub content_block : Option CoreContentBlock
  pub delta : String
  pub stop_reason : String
  pub usage : Option CoreUsage
  pub item_id : String
  pub choice_index : Option ℕ
  pub extensions : Members

-- An event of a type, all else zero.
abbrev pub event : EventType → CoreStreamEvent
event kind = record {
  kind = kind;
  seq_num = 0;
  status = "";
  model = "";
  error = none;
  index = 0;
  content_block = none;
  delta = "";
  stop_reason = "";
  usage = none;
  item_id = "";
  choice_index = none;
  extensions = end;
}
