-- ===== src/Tap/Loop/Private.antt =====
-- What is stored of a body when the recording mode is not `full`.
use mcpglass.Base.{List, [], ◌∷◌, ◌++◌, ◌≡◌, refl, All, ◌⊎◌, inl, inr, Option, none, some}
use mcpglass.Base.Text.{Text, Bytes, codes}
use mcpglass.Json.{Serde}
use mcpglass.Message.{ParsedMessage}
use mcpglass.Policy.Libs.{Libs}
use mcpglass.Storage.Sql.{Done, done, Conn, statement}
use mcpglass.Storage.Sql.Writes.{write_keeps}
use mcpglass.Storage.Database.{
  MessageRow, Database, set_session_protocol, insert_with_raw_len, insert_security_event,
  insert_inject_event, on_fingerprints,
}
use mcpglass.Tap.State.{
  ProtocolSource, TapEvent, logged, metadata, off, StorageMsg, Session, State, unrecorded, header,
  initialize,
}
use mcpglass.Tap.Loop.{
  insert_frame, record_of, on_messages, apply_header_hint, record_initialize_negotiation,
  negotiate_from, hint_from, record_negotiated, on_written,
}
use mcpglass.Tap.Loop.Keeps.{Kept, on_messages-Kept}

-- A stored message without its body.
abbrev pub IsBodyless : MessageRow → Type 0
IsBodyless row = row.entry.raw ≡ []

abbrev AreBodyless : Database → Type 0
AreBodyless t = All IsBodyless t.messages

All-snoc :
    (rows : List MessageRow) (r : MessageRow)
    → All IsBodyless rows
    → IsBodyless r
    → All IsBodyless (rows ++ r ∷ [])
All-snoc [] r hs h = (h, hs)
All-snoc (q ∷ rows) r hs h = (hs.0, All-snoc rows r hs.1 h)

-- The connection behind a write of the protocol version is the one that the write left.
on_written_conn :
    (serde : Serde) (libs : Libs) (lossy : Bytes → Text) (source : ProtocolSource) (st : State)
    (r : Option Done × Conn Database)
    → (on_written serde libs lossy source st r).conn ≡ r.1
unfolding on_written
on_written_conn serde libs lossy source st (none, c) = refl
on_written_conn serde libs lossy source st (some d, c) = refl

module _ (serde : Serde) (libs : Libs) (lossy : Bytes → Text) (session : Session) where
  -- One more message without a body.
  write_message :
      (r : MessageRow) (c : Conn Database)
      → IsBodyless r
      → AreBodyless c.tables
      → AreBodyless
          (statement (λ t. some (done, record t { messages = t.messages ++ r ∷ [] })) c).1.tables
  write_message r c h hs =
      write_keeps AreBodyless (λ _. done) (λ t. record t { messages = t.messages ++ r ∷ [] }) c hs
        (All-snoc c.tables.messages r hs h)

  insert_frame-AreBodyless :
      (session.mode ≡ metadata) ⊎ (session.mode ≡ off)
      → (ev : TapEvent) (p : ParsedMessage) (c : Conn Database) → AreBodyless c.tables
      → AreBodyless (logged (insert_frame serde libs lossy session ev p) c).tables
  unfolding insert_frame insert_with_raw_len record_of
  insert_frame-AreBodyless (inl e) ev p c h = rw e (write_message _ c refl h)
  insert_frame-AreBodyless (inr e) ev p c h = rw e (write_message _ c refl h)

  -- Only `insert_frame` writes to the messages.
  protocol-AreBodyless :
      (source : ProtocolSource) (name : Text) (proposed negotiated : Option Text) (st : State)
      → AreBodyless st.conn.tables × Unit {0}
      → AreBodyless
          (on_written serde libs lossy source st
            (set_session_protocol session.session_id proposed negotiated name st.conn)).conn.tables
        × Unit {0}
  unfolding set_session_protocol
  protocol-AreBodyless source name proposed negotiated st h = (
    rw
        (on_written_conn serde libs lossy source st
          (set_session_protocol session.session_id proposed negotiated name st.conn))
        (write_keeps AreBodyless (λ _. done) _ st.conn h.0 h.0),
    tt,
  )

  negotiated-AreBodyless :
      (proposed negotiated : Option Text) (st : State)
      → AreBodyless st.conn.tables × Unit {0}
      → AreBodyless (record_negotiated serde libs lossy session proposed negotiated st).conn.tables
        × Unit {0}
  unfolding record_negotiated
  negotiated-AreBodyless proposed none st h = h
  negotiated-AreBodyless proposed (some n) st h =
      protocol-AreBodyless initialize (codes "initialize") proposed (some n) st h

  hint-AreBodyless :
      (source : ProtocolSource) (version : Text) (st : State)
      → AreBodyless st.conn.tables × Unit {0}
      → AreBodyless (hint_from serde libs lossy source session version st).conn.tables × Unit {0}
  unfolding hint_from
  hint-AreBodyless unrecorded version st h =
      protocol-AreBodyless header (codes "header") none (some version) st h
  hint-AreBodyless header version st h = h
  hint-AreBodyless initialize version st h = h

  negotiation-AreBodyless :
      (source : ProtocolSource) (proposed : Option Text) (raw : Bytes) (st : State)
      → AreBodyless st.conn.tables × Unit {0}
      → AreBodyless (negotiate_from serde libs lossy source session proposed raw st).conn.tables
        × Unit {0}
  unfolding negotiate_from
  negotiation-AreBodyless unrecorded proposed raw st h = negotiated-AreBodyless proposed _ st h
  negotiation-AreBodyless header proposed raw st h = negotiated-AreBodyless proposed _ st h
  negotiation-AreBodyless initialize proposed raw st h = h

  bodyless-Kept :
      (session.mode ≡ metadata) ⊎ (session.mode ≡ off)
      → Kept serde libs lossy session AreBodyless (λ _. Unit {0})
  unfolding insert_security_event insert_inject_event on_fingerprints apply_header_hint
      record_initialize_negotiation
  bodyless-Kept mode = record {
    writes = record {
      frames = insert_frame-AreBodyless mode;
      tools = λ tool fp ts_ms c h. h;
      security_events = λ ev c h. write_keeps AreBodyless (λ _. done) _ c h h;
      inject_events = λ ev c h. write_keeps AreBodyless (λ _. done) _ c h h;
    };
    hint = λ version st h. hint-AreBodyless st.protocol_source version st h;
    negotiation = λ proposed raw st h. negotiation-AreBodyless st.protocol_source proposed raw st h;
  }

-- The messages of the loop store no body in the modes `metadata` and `off`.
pub on_messages-AreBodyless :
    (serde : Serde) (libs : Libs) (lossy : Bytes → Text) (session : Session) (ms : List StorageMsg)
    (st : State)
    → (session.mode ≡ metadata) ⊎ (session.mode ≡ off)
    → All IsBodyless st.conn.tables.messages
    → All IsBodyless (on_messages serde libs lossy session ms st).conn.tables.messages
on_messages-AreBodyless serde libs lossy session ms st mode h =
    (on_messages-Kept serde libs lossy session AreBodyless (λ _. Unit {0})
      (bodyless-Kept serde libs lossy session mode) ms st (h, tt)).0
