-- ===== src/Tap/Loop.antt =====
-- `storage_loop` of crates/cli/src/tap.rs and what it calls. A failed write is logged and dropped:
-- the state behind it goes on.
use mcpglass.Base.{
  ℕ, Option, none, some, List, [], ◌∷◌, ◌++◌, Bool, false, not, ◌&&◌, if◌then◌else◌, length,
}
use mcpglass.Base.Text.{Text, Bytes, codes, text_eq}
use mcpglass.Base.Int.{ℤ}
use mcpglass.Json.{Serde, get, get_str, ◌>>=◌}
use mcpglass.Message.{Direction, ParsedMessage, parse_line, is_s2c, is_some}
use mcpglass.Event.{Record, SecurityEvent, InjectEvent, fingerprint_change, flagged}
use mcpglass.Policy.Libs.{Libs}
use mcpglass.Policy.Fingerprint.{ToolFingerprints, fingerprints_from_tools_list_versioned}
use mcpglass.Storage.Sql.{Done, done, Conn, Sql}
use mcpglass.Storage.Fingerprints.{FingerprintOutcome, changed, reverted, record_fingerprint}
use mcpglass.Storage.Database.{
  Database, set_session_protocol, insert_with_raw_len, insert, insert_security_event,
  insert_inject_event, on_fingerprints,
}
use mcpglass.Tap.Pending.{Pending, note_request, remove, take}
use mcpglass.Tap.State.{
  ProtocolSource, unrecorded, header, initialize, RecordMode, full, metadata, off, TapEvent,
  StorageMsg, tap, security, inject, protocol_hint, Session, State, logged,
}
pub mod Keeps
pub mod Protocol
pub mod Private
pub mod Trigger

module _ (serde : Serde) (libs : Libs) (lossy : Bytes → Text) where
  unfoldable pub change_detail : FingerprintOutcome → Text → Text
  change_detail reverted tool =
      codes "tool "
      ++ (libs.debug tool
          ++ codes
              " definition reverted to a previously seen fingerprint (oscillation; possible rug-pull)")
  change_detail other tool =
      codes "tool "
      ++ (libs.debug tool ++ codes " definition changed since first sighting (possible rug-pull)")

  unfoldable pub change_event : FingerprintOutcome → Text → ℤ → SecurityEvent
  change_event outcome tool ts_ms = record {
    ts_ms = ts_ms;
    kind = fingerprint_change;
    rule = tool;
    detail = change_detail outcome tool;
    tool_name = some tool;
    rpc_id = none;
    action_taken = flagged;
  }

  -- Only a change and a reversion raise an event.
  unfoldable pub raise_change :
      ℕ → Text → ℤ → Option FingerprintOutcome × Conn Database → Conn Database
  raise_change session_id tool ts_ms (some changed, c) =
      logged (insert_security_event session_id (change_event changed tool ts_ms)) c
  raise_change session_id tool ts_ms (some reverted, c) =
      logged (insert_security_event session_id (change_event reverted tool ts_ms)) c
  raise_change session_id tool ts_ms (some _, c) = c
  raise_change session_id tool ts_ms (none, c) = c

  unfoldable pub record_tools :
      Session → ℤ → List (Text × ToolFingerprints) → Conn Database → Conn Database
  record_tools session ts_ms [] c = c
  record_tools session ts_ms ((tool, fp) ∷ tools) c = record_tools session ts_ms tools (
      raise_change session.session_id tool ts_ms (
        on_fingerprints
          (record_fingerprint session.session_id session.server_id session.legacy_key tool fp ts_ms)
          c))

  unfoldable pub record_fingerprints : Session → Bytes → ℤ → Conn Database → Conn Database
  record_fingerprints session raw ts_ms c = elim (serde.from_slice raw) [
    | none ↦ c
    | some value ↦
        record_tools session ts_ms (fingerprints_from_tools_list_versioned serde libs value) c
  ]

  -- The string at two keys, one below the other.
  unfoldable pub str_below : Text → Text → Bytes → Option Text
  str_below k j raw = serde.from_slice raw >>= get k >>= get_str j

  -- The source behind a write of the protocol version.
  unfoldable pub on_written : ProtocolSource → State → Option Done × Conn Database → State
  on_written source st (some _, c) = record st { conn = c; protocol_source = source }
  on_written source st (none, c) = record st { conn = c }

  unfoldable pub record_negotiated : Session → Option Text → Option Text → State → State
  record_negotiated session proposed none st = st
  record_negotiated session proposed (some negotiated) st = on_written initialize st (
      set_session_protocol session.session_id proposed (some negotiated) (codes "initialize")
        st.conn)

  -- `if *source == ProtocolSource::Initialize { return; }`, and what follows.
  unfoldable pub negotiate_from : ProtocolSource → Session → Option Text → Bytes → State → State
  negotiate_from initialize session proposed raw st = st
  negotiate_from unrecorded session proposed raw st =
      record_negotiated session proposed (str_below (codes "result") (codes "protocolVersion") raw)
        st
  negotiate_from header session proposed raw st =
      record_negotiated session proposed (str_below (codes "result") (codes "protocolVersion") raw)
        st

  unfoldable pub record_initialize_negotiation : Session → Option Text → Bytes → State → State
  record_initialize_negotiation session proposed raw st =
      negotiate_from st.protocol_source session proposed raw st

  -- `if *source != ProtocolSource::None { return; }`, and what follows.
  unfoldable pub hint_from : ProtocolSource → Session → Text → State → State
  hint_from unrecorded session version st =
      on_written header st
        (set_session_protocol session.session_id none (some version) (codes "header") st.conn)
  hint_from header session version st = st
  hint_from initialize session version st = st

  unfoldable pub apply_header_hint : Session → Text → State → State
  apply_header_hint session version st = hint_from st.protocol_source session version st

  unfoldable pub is_method : Text → ParsedMessage → Bool
  is_method name p = elim p.method [ none ↦ false | some m ↦ text_eq m name ]

  -- The request that a frame of the client is, with its id: one of that method, or another.
  unfoldable pub request_id : Text → TapEvent → ParsedMessage → Option Text
  request_id name ev p = if not (is_s2c ev.direction) && is_method name p then p.rpc_id else none

  unfoldable pub reused_id : Text → TapEvent → ParsedMessage → Option Text
  reused_id name ev p =
      if not (is_s2c ev.direction) && not (is_method name p) && is_some p.method
      then p.rpc_id
      else none

  -- The id of a response of the server.
  unfoldable pub response_id : TapEvent → ParsedMessage → Option Text
  response_id ev p = if is_s2c ev.direction && not (is_some p.method) then p.rpc_id else none

  unfoldable pub note : {A : Type 0} → Option Text → ℤ → A → Pending A → Pending A
  note none ts_ms value pending = pending
  note (some id) ts_ms value pending = note_request id ts_ms value pending

  unfoldable pub invalidate : {A : Type 0} → Option Text → Pending A → Pending A
  invalidate none pending = pending
  invalidate (some id) pending = remove id pending

  unfoldable pub record_of : RecordMode → TapEvent → ParsedMessage → Record
  record_of mode ev p = record {
    ts_ms = ev.ts_ms;
    direction = ev.direction;
    raw = elim mode [ full ↦ lossy ev.raw | metadata ↦ [] | off ↦ [] ];
    method = p.method;
    rpc_id = p.rpc_id;
    is_valid_json = p.is_valid_json;
    is_error = p.is_error;
  }

  unfoldable pub insert_frame : Session → TapEvent → ParsedMessage → Sql Database Done
  insert_frame session ev p = elim session.mode [
    | full ↦ insert session.session_id (record_of full ev p)
    | metadata ↦
        insert_with_raw_len session.session_id (record_of metadata ev p) (some (length ev.raw))
    | off ↦ insert_with_raw_len session.session_id (record_of off ev p) (some (length ev.raw))
  ]

  -- The pending requests behind a frame of the client.
  unfoldable pub track : TapEvent → ParsedMessage → State → State
  track ev p st = record st {
    pending_tools_list =
        invalidate (reused_id (codes "tools/list") ev p)
          (note (request_id (codes "tools/list") ev p) ev.ts_ms done st.pending_tools_list);
    pending_initialize = invalidate (reused_id (codes "initialize") ev p) (
        note (request_id (codes "initialize") ev p) ev.ts_ms
          (str_below (codes "params") (codes "protocolVersion") ev.raw) st.pending_initialize);
  }

  -- `if pending_tools_list.take(&id) && !is_error`.
  unfoldable pub answer_tools_list :
      Session → TapEvent → Bool → Option Done × Pending Done → State → State
  answer_tools_list session ev is_error (some _, pending) st = record st {
    pending_tools_list = pending;
    conn = if is_error then st.conn else record_fingerprints session ev.raw ev.ts_ms st.conn;
  }
  answer_tools_list session ev is_error (none, pending) st = record st {
    pending_tools_list = pending;
  }

  -- `if let Some(proposed) = pending_initialize.take(&id)`.
  unfoldable pub answer_initialize :
      Session → TapEvent → Bool → Option (Option Text) × Pending (Option Text) → State → State
  answer_initialize session ev is_error (some proposed, pending) st =
      let st' = record st { pending_initialize = pending } in
      if is_error then st' else record_initialize_negotiation session proposed ev.raw st'
  answer_initialize session ev is_error (none, pending) st = record st {
    pending_initialize = pending;
  }

  unfoldable pub respond : Session → TapEvent → ParsedMessage → Option Text → State → State
  respond session ev p none st = st
  respond session ev p (some id) st =
      let st' = answer_tools_list session ev p.is_error (take id st.pending_tools_list) st in
      answer_initialize session ev p.is_error (take id st'.pending_initialize) st'

  unfoldable pub on_tap : Session → TapEvent → State → State
  on_tap session ev st =
      let p = parse_line serde ev.raw ev.direction in
      respond session ev p (response_id ev p)
        (track ev p (record st { conn = logged (insert_frame session ev p) st.conn }))

  unfoldable pub on_message : Session → StorageMsg → State → State
  on_message session (tap ev) st = on_tap session ev st
  on_message session (protocol_hint version) st = apply_header_hint session version st
  on_message session (security ev) st = record st {
    conn = logged (insert_security_event session.session_id ev) st.conn;
  }
  on_message session (inject ev) st = record st {
    conn = logged (insert_inject_event session.session_id ev) st.conn;
  }

  unfoldable pub on_messages : Session → List StorageMsg → State → State
  on_messages session [] st = st
  on_messages session (m ∷ ms) st = on_messages session ms (on_message session m st)
