-- ===== src/Tests/Tap.antt =====
-- The storage loop on a few messages.
use mcpglass.Base.{ℕ, List, none, [], ◌∷◌, ◌≡◌, refl, inl, inr, All}
use mcpglass.Base.Int.{pos}
use mcpglass.Base.Text.{codes, text_eq}
use mcpglass.Json.{get, get_str, lookup, as_str}
use mcpglass.Message.{c2s, s2c, parse_line, message_of}
use mcpglass.Storage.Sql.{Conn}
use mcpglass.Storage.Database.{Database}
use mcpglass.Tap.Pending.{Pending}
use mcpglass.Tap.State.{
  Session, State, StorageMsg, tap, protocol_hint, unrecorded, initialize, metadata,
}
use mcpglass.Tap.Loop.{on_messages}
use mcpglass.Tap.Loop.Private.{IsBodyless}
use mcpglass.Tap.Session.{Setup, storage_loop}
use mcpglass.Tap.Session.Bodies.{storage_loop-AreBodyless}
use mcpglass.Policy.Fingerprint.{stdio}
use mcpglass.Tap.Loop.Protocol.{on_messages_settled}
use mcpglass.Tap.Loop.Trigger.{on_messages-fingerprints}
use mcpglass.Tests.Sample.{serde, libs, call_line, failure_line}

abbrev conn : Conn Database
conn = record {
  tables = record {
    sessions = [];
    next_session = 2;
    messages = [];
    security_events = [];
    inject_events = [];
    fingerprints = record { rows = []; next_id = 1 };
  };
  saved = none;
  faults = [];
}

abbrev session : Session
session = record {
  session_id = 1;
  server_id = codes "srv";
  legacy_key = codes "cmd";
  mode = metadata;
}

abbrev start : State
start = record {
  conn = conn;
  pending_tools_list = [];
  pending_initialize = [];
  protocol_source = unrecorded;
}

abbrev settled : State
settled = record start { protocol_source = initialize }

abbrev messages : List StorageMsg
messages =
    tap (record { direction = c2s; ts_ms = pos 1; raw = call_line })
    ∷ protocol_hint (codes "2025-06-18")
    ∷ tap (record { direction = s2c; ts_ms = pos 2; raw = failure_line })
    ∷ []

abbrev waiting : Pending ℕ
waiting = (codes "1", record { ts_ms = pos 1; value = 4 }) ∷ []

abbrev setup : Setup
setup = record {
  label = codes "demo";
  command_line = codes "cmd";
  identity = stdio (codes "cmd" ∷ []);
  mode = metadata;
  started_at = pos 1;
  ended_at = pos 9;
}

storage_loop-AreBodyless_example :
    All IsBodyless (storage_loop serde libs (λ b. b) setup messages conn).tables.messages
storage_loop-AreBodyless_example =
    storage_loop-AreBodyless serde libs (λ b. b) setup messages conn (inl refl) tt

on_messages_settled_example :
    ((on_messages serde libs (λ b. b) session messages settled).conn.tables.sessions ≡ [])
    × ((on_messages serde libs (λ b. b) session messages settled).protocol_source ≡ initialize)
on_messages_settled_example = on_messages_settled serde libs (λ b. b) session messages settled refl

on_messages-fingerprints_example :
    (on_messages serde libs (λ b. b) session messages start).conn.tables.fingerprints
    ≡ start.conn.tables.fingerprints
unfolding parse_line message_of get lookup get_str as_str text_eq
on_messages-fingerprints_example =
    on_messages-fingerprints serde libs (λ b. b) session messages start refl
      (inr (inl (λ e. cc)), (tt, (inl refl, tt)))
