-- ===== src/Session/Request.antt =====
-- internal/service/server/session.go: which session a request gets. The headers are what
-- `Header.Get` gives: "" where a header is missing.
pub mod Isolation
use Prim.Native.String.{◌++◌ as append}
use moon_bridge.Prelude.{
  ℕ, suc, String, Option, none, some, if◌then◌else◌, ◌==◌, string_comparable, Bool, not,
}
use moon_bridge.ModelRef.{trim_space}
use moon_bridge.Session.{Session, InMemoryManager, Config, get_or_create, new_ephemeral}

pub record Request : Type 0 where
  pub session_id : String
  pub x_codex_window_id : String

-- `sessionKeyFromRequest`
unfoldable pub session_key_from_request : Request → String
session_key_from_request r =
    if not (trim_space r.session_id == "")
    then append "session:" (trim_space r.session_id)
    else if not (trim_space r.x_codex_window_id == "")
    then append "codex-window:" (trim_space r.x_codex_window_id)
    else ""

module _ (Data : Type 0) where
  -- `sessionForRequest`, at the time `now`; `id` is the random identifier that an ephemeral session
  -- draws. Without a session manager there is no session.
  unfoldable pub session_for_request :
      Config Data
      → Request
      → String
      → ℕ
      → Option (InMemoryManager Data)
      → Option (Session Data × InMemoryManager Data)
  session_for_request cfg r id now none = none
  session_for_request cfg r id now (some m) =
      let key = session_key_from_request r in
      if key == ""
      then some (new_ephemeral Data cfg id now m)
      else some (get_or_create Data cfg key now m)
