-- ===== src/Storage/Database.antt =====
-- The tables of the recorder and the statements that write them: crates/storage/src/lib.rs. The
-- rows of a table stand in the order of their ids.
use mcpglass.Base.{ℕ, ◌+◌, Option, none, some, List, [], ◌∷◌, ◌++◌, map, ◌==◌, if◌then◌else◌}
use mcpglass.Base.Text.{Text}
use mcpglass.Base.Int.{ℤ}
use mcpglass.Event.{Record, SecurityEvent, InjectEvent}
use mcpglass.Storage.Sql.{Done, done, Sql, statement}
use mcpglass.Storage.Fingerprints.{Table}

pub record SessionRow : Type 0 where
  pub id : ℕ
  pub label : Text
  pub command : Text
  pub started_at_ms : ℤ
  pub ended_at_ms : Option ℤ
  pub program : Option Text
  pub argv_json : Option Text
  pub transport : Option Text
  pub server_id : Option Text
  pub protocol_version : Option Text
  pub client_protocol_version : Option Text
  pub protocol_version_source : Option Text

pub record MessageRow : Type 0 where
  pub session_id : ℕ
  pub entry : Record
  pub raw_len : Option ℕ

pub record Database : Type 0 where
  pub sessions : List SessionRow
  pub next_session : ℕ
  pub messages : List MessageRow
  pub security_events : List (ℕ × SecurityEvent)
  pub inject_events : List (ℕ × InjectEvent)
  pub fingerprints : Table

unfoldable pub begin_session_with_identity :
    Text → Text → Option Text → Option Text → Text → Text → ℤ → Sql Database ℕ
begin_session_with_identity label command program argv_json transport server_id now =
    statement (λ t. some (
      t.next_session,
      record t {
        sessions =
            t.sessions
            ++ (record {
              id = t.next_session;
              label = label;
              command = command;
              started_at_ms = now;
              ended_at_ms = none;
              program = program;
              argv_json = argv_json;
              transport = some transport;
              server_id = some server_id;
              protocol_version = none;
              client_protocol_version = none;
              protocol_version_source = none;
            })
              ∷ [];
        next_session = t.next_session + 1;
      },
    ))

-- `UPDATE sessions SET .. WHERE id = ?1`.
abbrev pub where_id : ℕ → (SessionRow → SessionRow) → SessionRow → SessionRow
where_id id f s = if s.id == id then f s else s

unfoldable pub end_session : ℕ → ℤ → Sql Database Done
end_session id now = statement (λ t. some (
  done,
  record t { sessions = map (where_id id (λ s. record s { ended_at_ms = some now })) t.sessions },
))

unfoldable pub set_session_protocol : ℕ → Option Text → Option Text → Text → Sql Database Done
set_session_protocol id client_proposed negotiated source = statement (λ t. some (
  done,
  record t {
    sessions =
        map
          (where_id id (λ s. record s {
            protocol_version = negotiated;
            client_protocol_version = client_proposed;
            protocol_version_source = some source;
          }))
          t.sessions;
  },
))

unfoldable pub insert_with_raw_len : ℕ → Record → Option ℕ → Sql Database Done
insert_with_raw_len session_id rec raw_len = statement (λ t. some (
  done,
  record t {
    messages =
        t.messages ++ (record { session_id = session_id; entry = rec; raw_len = raw_len }) ∷ [];
  },
))

unfoldable pub insert : ℕ → Record → Sql Database Done
insert session_id rec = insert_with_raw_len session_id rec none

unfoldable pub insert_security_event : ℕ → SecurityEvent → Sql Database Done
insert_security_event session_id ev =
    statement
      (λ t. some (done, record t { security_events = t.security_events ++ (session_id, ev) ∷ [] }))

unfoldable pub insert_inject_event : ℕ → InjectEvent → Sql Database Done
insert_inject_event session_id ev =
    statement
      (λ t. some (done, record t { inject_events = t.inject_events ++ (session_id, ev) ∷ [] }))

-- An operation on the table of fingerprints alone, run on the whole database.
unfoldable pub on_fingerprints : {A : Type 0} → Sql Table A → Sql Database A
on_fingerprints m c =
    let o = m (record {
      tables = c.tables.fingerprints;
      saved = elim c.saved [ none ↦ none | some t ↦ some t.fingerprints ];
      faults = c.faults;
    }) in
    (
      o.0,
      record {
        tables = record c.tables { fingerprints = o.1.tables };
        saved = elim o.1.saved [
          | none ↦ none
          | some t ↦ some (record c.tables { fingerprints = t })
        ];
        faults = o.1.faults;
      },
    )
