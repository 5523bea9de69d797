-- ===== src/Tap/Loop/Keeps.antt =====
-- How an invariant of the storage loop is carried through its operations.
use mcpglass.Base.{Option, none, some, List, [], ◌∷◌, Bool, true, false}
use mcpglass.Base.Text.{Text, Bytes}
use mcpglass.Base.Int.{ℤ}
use mcpglass.Json.{Serde}
use mcpglass.Message.{ParsedMessage, parse_line}
use mcpglass.Event.{SecurityEvent, InjectEvent}
use mcpglass.Policy.Libs.{Libs}
use mcpglass.Policy.Fingerprint.{ToolFingerprints, fingerprints_from_tools_list_versioned}
use mcpglass.Storage.Sql.{Done, Conn}
use mcpglass.Storage.Fingerprints.{
  FingerprintOutcome, new, unchanged, changed, reverted, record_fingerprint,
}
use mcpglass.Storage.Database.{
  Database, insert_security_event, insert_inject_event, on_fingerprints,
}
use mcpglass.Tap.Pending.{Pending}
use mcpglass.Tap.State.{
  ProtocolSource, TapEvent, StorageMsg, tap, security, inject, protocol_hint, Session, State,
  logged,
}
use mcpglass.Tap.Loop.{
  change_event, raise_change, record_tools, record_fingerprints, record_initialize_negotiation,
  apply_header_hint, response_id, insert_frame, track, answer_tools_list, answer_initialize,
  respond, on_tap, on_message, on_messages,
}

module _ (serde : Serde) (libs : Libs) (lossy : Bytes → Text) (session : Session) where
  -- A property of the tables that every write but the one of the protocol version keeps.
  pub record KeptByWrites (P : Database → Type 0) : Type 0 where
    pub frames :
        (ev : TapEvent) (p : ParsedMessage) (c : Conn Database)
        → P c.tables
        → P (logged (insert_frame serde libs lossy session ev p) c).tables
    pub tools :
        (tool : Text) (fp : ToolFingerprints) (ts_ms : ℤ) (c : Conn Database)
        → P c.tables
        → P
            (on_fingerprints
              (record_fingerprint session.session_id session.server_id session.legacy_key tool fp
                ts_ms)
              c).1.tables
    pub security_events :
        (ev : SecurityEvent) (c : Conn Database)
        → P c.tables
        → P (logged (insert_security_event session.session_id ev) c).tables
    pub inject_events :
        (ev : InjectEvent) (c : Conn Database)
        → P c.tables
        → P (logged (insert_inject_event session.session_id ev) c).tables

  -- With it, a property of the state that the two writers of the protocol version keep.
  pub record Kept (P : Database → Type 0) (R : ProtocolSource → Type 0) : Type 0 where
    pub writes : KeptByWrites P
    pub hint :
        (version : Text) (st : State)
        → P st.conn.tables × R st.protocol_source
        → let st' = apply_header_hint serde libs lossy session version st in
          P st'.conn.tables × R st'.protocol_source
    pub negotiation :
        (proposed : Option Text) (raw : Bytes) (st : State)
        → P st.conn.tables × R st.protocol_source
        → let st' = record_initialize_negotiation serde libs lossy session proposed raw st in
          P st'.conn.tables × R st'.protocol_source

  module _ (P : Database → Type 0) (k : KeptByWrites P) where
    raise_change-Kept :
        (tool : Text) (ts_ms : ℤ) (o : Option FingerprintOutcome × Conn Database)
        → P o.1.tables
        → P (raise_change serde libs lossy session.session_id tool ts_ms o).tables
    unfolding raise_change
    raise_change-Kept tool ts_ms (none, c) h = h
    raise_change-Kept tool ts_ms (some new, c) h = h
    raise_change-Kept tool ts_ms (some unchanged, c) h = h
    raise_change-Kept tool ts_ms (some changed, c) h =
        k.security_events (change_event serde libs lossy changed tool ts_ms) c h
    raise_change-Kept tool ts_ms (some reverted, c) h =
        k.security_events (change_event serde libs lossy reverted tool ts_ms) c h

    record_tools-Kept :
        (ts_ms : ℤ) (tools : List (Text × ToolFingerprints)) (c : Conn Database)
        → P c.tables
        → P (record_tools serde libs lossy session ts_ms tools c).tables
    unfolding record_tools
    record_tools-Kept ts_ms [] c h = h
    record_tools-Kept ts_ms ((tool, fp) ∷ tools) c h =
        record_tools-Kept ts_ms tools _ (raise_change-Kept tool ts_ms _ (k.tools tool fp ts_ms c h))

    record_fingerprints-Kept :
        (raw : Bytes) (ts_ms : ℤ) (c : Conn Database)
        → P c.tables
        → P (record_fingerprints serde libs lossy session raw ts_ms c).tables
    unfolding record_fingerprints
    record_fingerprints-Kept raw ts_ms c h =
        elim (serde.from_slice raw)
          as (λ o.
            P
              (elim o as (λ _. Conn Database) [
                | none ↦ c
                | some value ↦
                    record_tools serde libs lossy session ts_ms
                      (fingerprints_from_tools_list_versioned serde libs value) c
              ]).tables) [ none ↦ h | some value ↦ record_tools-Kept ts_ms _ c h ]

  module _ (P : Database → Type 0) (R : ProtocolSource → Type 0) (k : Kept P R) where
    abbrev Holds : State → Type 0
    Holds st = P st.conn.tables × R st.protocol_source

    answer_tools_list-Kept :
        (ev : TapEvent) (is_error : Bool) (taken : Option Done × Pending Done) (st : State)
        → Holds st
        → Holds (answer_tools_list serde libs lossy session ev is_error taken st)
    unfolding answer_tools_list
    answer_tools_list-Kept ev is_error (none, pending) st h = h
    answer_tools_list-Kept ev true (some _, pending) st h = h
    answer_tools_list-Kept ev false (some _, pending) st h =
        (record_fingerprints-Kept P k.writes ev.raw ev.ts_ms st.conn h.0, h.1)

    answer_initialize-Kept :
        (ev : TapEvent) (is_error : Bool) (taken : Option (Option Text) × Pending (Option Text))
        (st : State)
        → Holds st
        → Holds (answer_initialize serde libs lossy session ev is_error taken st)
    unfolding answer_initialize
    answer_initialize-Kept ev is_error (none, pending) st h = h
    answer_initialize-Kept ev true (some proposed, pending) st h = h
    answer_initialize-Kept ev false (some proposed, pending) st h =
        k.negotiation proposed ev.raw (record st { pending_initialize = pending }) h

    respond-Kept :
        (ev : TapEvent) (p : ParsedMessage) (id : Option Text) (st : State)
        → Holds st
        → Holds (respond serde libs lossy session ev p id st)
    unfolding respond
    respond-Kept ev p none st h = h
    respond-Kept ev p (some id) st h =
        answer_initialize-Kept ev p.is_error _ _ (answer_tools_list-Kept ev p.is_error _ st h)

    on_tap-Kept :
        (ev : TapEvent) (st : State) → Holds st → Holds (on_tap serde libs lossy session ev st)
    unfolding on_tap track
    on_tap-Kept ev st h =
        let p = parse_line serde ev.raw ev.direction in
        respond-Kept ev p (response_id serde libs lossy ev p) _
          (k.writes.frames ev p st.conn h.0, h.1)

    on_message-Kept :
        (m : StorageMsg) (st : State) → Holds st → Holds (on_message serde libs lossy session m st)
    unfolding on_message
    on_message-Kept (tap ev) st h = on_tap-Kept ev st h
    on_message-Kept (protocol_hint version) st h = k.hint version st h
    on_message-Kept (security ev) st h = (k.writes.security_events ev st.conn h.0, h.1)
    on_message-Kept (inject ev) st h = (k.writes.inject_events ev st.conn h.0, h.1)

    pub on_messages-Kept :
        (ms : List StorageMsg) (st : State)
        → Holds st
        → Holds (on_messages serde libs lossy session ms st)
    unfolding on_messages
    on_messages-Kept [] st h = h
    on_messages-Kept (m ∷ ms) st h = on_messages-Kept ms _ (on_message-Kept m st h)
