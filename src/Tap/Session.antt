-- ===== src/Tap/Session.antt =====
-- `storage_loop` of crates/cli/src/tap.rs from the opened database to the end of the session. The
-- clock is read twice, at the start and at the end.
use mcpglass.Base.{ℕ, Option, none, some, List, []}
use mcpglass.Base.Text.{Text, Bytes}
use mcpglass.Base.Int.{ℤ}
use mcpglass.Json.{Serde, array}
use mcpglass.Policy.Libs.{Libs}
use mcpglass.Policy.Fingerprint.{
  ServerIdentity, stdio, http, transport, program, strings, server_identity_hash,
}
use mcpglass.Storage.Sql.{Conn}
use mcpglass.Storage.Database.{Database, begin_session_with_identity, end_session}
use mcpglass.Tap.State.{RecordMode, unrecorded, StorageMsg, Session, State, logged}
use mcpglass.Tap.Loop.{on_messages}
pub mod Bodies

-- What `storage_loop` is given.
pub record Setup : Type 0 where
  pub label : Text
  pub command_line : Text
  pub identity : ServerIdentity
  pub mode : RecordMode
  pub started_at : ℤ
  pub ended_at : ℤ

unfoldable pub argv_json : Serde → ServerIdentity → Option Text
argv_json serde (stdio argv) = some (serde.to_string (array (strings argv)))
argv_json serde (http url) = none

unfoldable pub initial : Conn Database → State
initial c = record {
  conn = c;
  pending_tools_list = [];
  pending_initialize = [];
  protocol_source = unrecorded;
}

unfoldable pub session_of : Serde → Libs → Setup → ℕ → Session
session_of serde libs setup id = record {
  session_id = id;
  server_id = server_identity_hash serde libs setup.identity;
  legacy_key = setup.command_line;
  mode = setup.mode;
}

module _ (serde : Serde) (libs : Libs) (lossy : Bytes → Text) (setup : Setup)
    (ms : List StorageMsg) where
  -- Behind `begin_session_with_identity`; if that failed, the channel is only drained.
  unfoldable pub with_session : Option ℕ × Conn Database → Conn Database
  with_session (none, c) = c
  with_session (some id, c) =
      logged (end_session id setup.ended_at)
        (on_messages serde libs lossy (session_of serde libs setup id) ms (initial c)).conn

  unfoldable pub storage_loop : Conn Database → Conn Database
  storage_loop c = with_session (
      begin_session_with_identity setup.label setup.command_line (program setup.identity)
        (argv_json serde setup.identity) (transport setup.identity)
        (server_identity_hash serde libs setup.identity) setup.started_at c)
