-- ===== src/Tap/Loop/Protocol.antt =====
-- The precedence of the handshake over the header.
use mcpglass.Base.{List, ◌≡◌, refl, Option}
use mcpglass.Base.Text.{Text, Bytes}
use mcpglass.Json.{Serde}
use mcpglass.Message.{ParsedMessage}
use mcpglass.Policy.Libs.{Libs}
use mcpglass.Storage.Sql.{done, Conn}
use mcpglass.Storage.Sql.Writes.{write_keeps}
use mcpglass.Storage.Database.{
  SessionRow, Database, insert, insert_with_raw_len, insert_security_event, insert_inject_event,
  on_fingerprints,
}
use mcpglass.Tap.State.{
  ProtocolSource, unrecorded, header, initialize, TapEvent, logged, RecordMode, full, metadata, off,
  StorageMsg, Session, State,
}
use mcpglass.Tap.Loop.{
  insert_frame, on_messages, apply_header_hint, record_initialize_negotiation, negotiate_from,
  hint_from,
}
use mcpglass.Tap.Loop.Keeps.{Kept, on_messages-Kept}

abbrev SessionsAre : List SessionRow → Database → Type 0
SessionsAre rows t = t.sessions ≡ rows

module _ (serde : Serde) (libs : Libs) (lossy : Bytes → Text) (session : Session) where
  hint_from-initialize :
      (source : ProtocolSource) (version : Text) (st : State)
      → source ≡ initialize
      → hint_from serde libs lossy source session version st ≡ st
  unfolding hint_from
  hint_from-initialize initialize version st e = refl
  hint_from-initialize unrecorded version st e = cc
  hint_from-initialize header version st e = refl

  negotiate_from-initialize :
      (source : ProtocolSource) (proposed : Option Text) (raw : Bytes) (st : State)
      → source ≡ initialize
      → negotiate_from serde libs lossy source session proposed raw st ≡ st
  unfolding negotiate_from
  negotiate_from-initialize initialize proposed raw st e = refl
  negotiate_from-initialize unrecorded proposed raw st e = cc
  negotiate_from-initialize header proposed raw st e = cc

  insert_frame-SessionsAre :
      (rows : List SessionRow) (mode : RecordMode) (ev : TapEvent) (p : ParsedMessage)
      (c : Conn Database)
      → SessionsAre rows c.tables
      → SessionsAre rows
          (logged (insert_frame serde libs lossy (record session { mode = mode }) ev p) c).tables
  unfolding insert_frame insert insert_with_raw_len
  insert_frame-SessionsAre rows full ev p c h = write_keeps (SessionsAre rows) (λ _. done) _ c h h
  insert_frame-SessionsAre rows metadata ev p c h =
      write_keeps (SessionsAre rows) (λ _. done) _ c h h
  insert_frame-SessionsAre rows off ev p c h = write_keeps (SessionsAre rows) (λ _. done) _ c h h

  settled-Kept :
      (rows : List SessionRow)
      → Kept serde libs lossy session (SessionsAre rows) (λ source. source ≡ initialize)
  unfolding insert_security_event insert_inject_event on_fingerprints apply_header_hint
      record_initialize_negotiation
  settled-Kept rows = record {
    writes = record {
      frames = λ ev p c h. insert_frame-SessionsAre rows session.mode ev p c h;
      tools = λ tool fp ts_ms c h. h;
      security_events = λ ev c h. write_keeps (SessionsAre rows) (λ _. done) _ c h h;
      inject_events = λ ev c h. write_keeps (SessionsAre rows) (λ _. done) _ c h h;
    };
    hint = λ version st h. rw (hint_from-initialize st.protocol_source version st h.1) h;
    negotiation = λ proposed raw st h.
        rw (negotiate_from-initialize st.protocol_source proposed raw st h.1) h;
  }

-- Once the version of an `initialize` handshake is recorded, no later message changes a row of the
-- sessions, neither a header nor another handshake, whichever writes fail; and the source stays
-- `initialize`.
pub on_messages_settled :
    (serde : Serde) (libs : Libs) (lossy : Bytes → Text) (session : Session) (ms : List StorageMsg)
    (st : State)
    → st.protocol_source ≡ initialize
    → ((on_messages serde libs lossy session ms st).conn.tables.sessions ≡ st.conn.tables.sessions)
      × ((on_messages serde libs lossy session ms st).protocol_source ≡ initialize)
on_messages_settled serde libs lossy session ms st e =
    on_messages-Kept serde libs lossy session (SessionsAre st.conn.tables.sessions)
      (λ source. source ≡ initialize)
      (settled-Kept serde libs lossy session st.conn.tables.sessions) ms st (refl, e)
