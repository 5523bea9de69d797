-- ===== src/Tap/State.antt =====
-- The messages of the storage thread and what it keeps between them: crates/cli/src/tap.rs.
use mcpglass.Base.{ℕ, Option}
use mcpglass.Base.Text.{Text, Bytes}
use mcpglass.Base.Int.{ℤ}
use mcpglass.Message.{Direction}
use mcpglass.Event.{SecurityEvent, InjectEvent}
use mcpglass.Storage.Sql.{Done, Conn, Sql}
use mcpglass.Storage.Database.{Database}
use mcpglass.Tap.Pending.{Pending}

pub data ProtocolSource : Type 0 where
  unrecorded header initialize : ProtocolSource

pub data RecordMode : Type 0 where
  full metadata off : RecordMode

pub record TapEvent : Type 0 where
  pub direction : Direction
  pub ts_ms : ℤ
  pub raw : Bytes

pub data StorageMsg : Type 0 where
  tap : TapEvent → StorageMsg
  security : SecurityEvent → StorageMsg
  inject : InjectEvent → StorageMsg
  protocol_hint : Text → StorageMsg

-- What stays the same during a session.
pub record Session : Type 0 where
  pub session_id : ℕ
  pub server_id : Text
  pub legacy_key : Text
  pub mode : RecordMode

-- What the loop changes.
pub record State : Type 0 where
  pub conn : Conn Database
  pub pending_tools_list : Pending Done
  pub pending_initialize : Pending (Option Text)
  pub protocol_source : ProtocolSource

-- `if let Err(e) = .. { logger.error(..) }`.
abbrev pub logged : {A : Type 0} → Sql Database A → Conn Database → Conn Database
logged m c = (m c).1
