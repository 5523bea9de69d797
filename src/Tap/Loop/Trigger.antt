-- ===== src/Tap/Loop/Trigger.antt =====
-- Which frames may touch the fingerprints.
use mcpglass.Base.{
  List, [], ◌∷◌, ◌≡◌, ◌≢◌, ◌⊎◌, ◌∙◌, ap, inl, inr, Option-cases, Bool-cases, arith, refl, Option,
  none, some, All, Bool, true, false,
}
use mcpglass.Base.Text.{Text, Bytes, codes, text_eq, text_eq_iff}
use mcpglass.Base.Int.{ℤ}
use mcpglass.Json.{Serde}
use mcpglass.Message.{s2c, ParsedMessage, parse_line}
use mcpglass.Policy.Libs.{Libs}
use mcpglass.Storage.Sql.{Done, done, Conn}
use mcpglass.Storage.Sql.Writes.{write_keeps}
use mcpglass.Storage.Fingerprints.{Table}
use mcpglass.Storage.Database.{
  Database, set_session_protocol, insert, insert_with_raw_len, insert_security_event,
  insert_inject_event,
}
use mcpglass.Tap.Pending.{Pending, remove, find_value, take}
use mcpglass.Tap.State.{
  ProtocolSource, unrecorded, header, initialize, TapEvent, logged, RecordMode, full, metadata, off,
  StorageMsg, tap, security, inject, protocol_hint, Session, State,
}
use mcpglass.Tap.Loop.{
  insert_frame, is_method, request_id, reused_id, response_id, note, invalidate, track,
  answer_tools_list, answer_initialize, respond, on_tap, on_message, on_messages, apply_header_hint,
  record_initialize_negotiation, record_negotiated, negotiate_from, hint_from, on_written,
}

-- No `tools/list` request of the client with an id: the frame is one of the server, or its method is
-- another one, or it has no id.
abbrev pub IsNoToolsList : Serde → StorageMsg → Type 0
IsNoToolsList serde (tap ev) =
    let p = parse_line serde ev.raw ev.direction in
    (ev.direction ≡ s2c) ⊎ (p.method ≢ some (codes "tools/list")) ⊎ (p.rpc_id ≡ none)
IsNoToolsList serde (security _) = Unit {0}
IsNoToolsList serde (inject _) = Unit {0}
IsNoToolsList serde (protocol_hint _) = Unit {0}

abbrev FingerprintsAre : Table → Database → Type 0
FingerprintsAre f t = t.fingerprints ≡ f

-- The fingerprints as they were, and no `tools/list` request that waits for its response.
abbrev IsIdle : Table → State → Type 0
IsIdle f st = FingerprintsAre f st.conn.tables × (st.pending_tools_list ≡ [])

module _ (serde : Serde) (libs : Libs) (lossy : Bytes → Text) (session : Session) (f : Table) where
  insert_frame-FingerprintsAre :
      (mode : RecordMode) (ev : TapEvent) (p : ParsedMessage) (c : Conn Database)
      → FingerprintsAre f c.tables
      → FingerprintsAre f
          (logged (insert_frame serde libs lossy (record session { mode = mode }) ev p) c).tables
  unfolding insert_frame insert insert_with_raw_len
  insert_frame-FingerprintsAre full ev p c h = write_keeps (FingerprintsAre f) (λ _. done) _ c h h
  insert_frame-FingerprintsAre metadata ev p c h =
      write_keeps (FingerprintsAre f) (λ _. done) _ c h h
  insert_frame-FingerprintsAre off ev p c h = write_keeps (FingerprintsAre f) (λ _. done) _ c h h

  on_written-IsIdle :
      (source : ProtocolSource) (st : State) (r : Option Done × Conn Database)
      → FingerprintsAre f r.1.tables
      → st.pending_tools_list ≡ []
      → IsIdle f (on_written serde libs lossy source st r)
  unfolding on_written
  on_written-IsIdle source st (none, c) h e = (h, e)
  on_written-IsIdle source st (some d, c) h e = (h, e)

  protocol-IsIdle :
      (source : ProtocolSource) (name : Text) (proposed negotiated : Option Text) (st : State)
      → IsIdle f st
      → IsIdle f (
          on_written serde libs lossy source st
            (set_session_protocol session.session_id proposed negotiated name st.conn))
  unfolding set_session_protocol
  protocol-IsIdle source name proposed negotiated st h =
      on_written-IsIdle source st _ (write_keeps (FingerprintsAre f) (λ _. done) _ st.conn h.0 h.0)
        h.1

  record_negotiated-IsIdle :
      (proposed negotiated : Option Text) (st : State)
      → IsIdle f st
      → IsIdle f (record_negotiated serde libs lossy session proposed negotiated st)
  unfolding record_negotiated
  record_negotiated-IsIdle proposed none st h = h
  record_negotiated-IsIdle proposed (some n) st h =
      protocol-IsIdle initialize (codes "initialize") proposed (some n) st h

  negotiate_from-IsIdle :
      (source : ProtocolSource) (proposed : Option Text) (raw : Bytes) (st : State)
      → IsIdle f st
      → IsIdle f (negotiate_from serde libs lossy source session proposed raw st)
  unfolding negotiate_from
  negotiate_from-IsIdle unrecorded proposed raw st h = record_negotiated-IsIdle proposed _ st h
  negotiate_from-IsIdle header proposed raw st h = record_negotiated-IsIdle proposed _ st h
  negotiate_from-IsIdle initialize proposed raw st h = h

  hint_from-IsIdle :
      (source : ProtocolSource) (version : Text) (st : State)
      → IsIdle f st
      → IsIdle f (hint_from serde libs lossy source session version st)
  unfolding hint_from
  hint_from-IsIdle unrecorded version st h =
      protocol-IsIdle header (codes "header") none (some version) st h
  hint_from-IsIdle header version st h = h
  hint_from-IsIdle initialize version st h = h

  answer_tools_list-IsIdle :
      (ev : TapEvent) (is_error : Bool) (id : Text) (p : Pending Done) (st : State)
      → p ≡ []
      → IsIdle f st
      → IsIdle f (answer_tools_list serde libs lossy session ev is_error (take id p) st)
  unfolding answer_tools_list take find_value remove
  answer_tools_list-IsIdle ev is_error id [] st e h = (h.0, refl)
  answer_tools_list-IsIdle ev is_error id (q ∷ qs) st e h = cc

  answer_initialize-IsIdle :
      (ev : TapEvent) (is_error : Bool) (taken : Option (Option Text) × Pending (Option Text))
      (st : State)
      → IsIdle f st
      → IsIdle f (answer_initialize serde libs lossy session ev is_error taken st)
  unfolding answer_initialize record_initialize_negotiation
  answer_initialize-IsIdle ev is_error (none, pending) st h = h
  answer_initialize-IsIdle ev true (some proposed, pending) st h = h
  answer_initialize-IsIdle ev false (some proposed, pending) st h =
      negotiate_from-IsIdle st.protocol_source proposed ev.raw
        (record st { pending_initialize = pending }) h

  respond-IsIdle :
      (ev : TapEvent) (p : ParsedMessage) (id : Option Text) (st : State)
      → IsIdle f st
      → IsIdle f (respond serde libs lossy session ev p id st)
  unfolding respond
  respond-IsIdle ev p none st h = h
  respond-IsIdle ev p (some id) st h =
      answer_initialize-IsIdle ev p.is_error _ _
        (answer_tools_list-IsIdle ev p.is_error id st.pending_tools_list st h.1 h)

  is_method_other :
      (name : Text) (p : ParsedMessage)
      → p.method ≢ some name
      → is_method serde libs lossy name p ≡ false
  unfolding is_method
  is_method_other name p other = elim (Option-cases p.method) [
    | inl e ↦ rw (e, is_method) refl
    | inr (m, e) ↦ elim (Bool-cases (text_eq m name)) [
      | inl same ↦ absurd (other (e ∙ ap (λ t. some t) ((text_eq_iff m name).0 same)))
      | inr differs ↦ rw (e, is_method) differs
    ]
  ]

  no_request_id :
      (ev : TapEvent) (p : ParsedMessage)
      → (ev.direction ≡ s2c) ⊎ (p.method ≢ some (codes "tools/list")) ⊎ (p.rpc_id ≡ none)
      → request_id serde libs lossy (codes "tools/list") ev p ≡ none
  unfolding request_id
  no_request_id ev p (inl server) = rw server refl
  no_request_id ev p (inr (inl other)) =
      ground (arith, is_method_other (codes "tools/list") p other)
  no_request_id ev p (inr (inr no_id)) = ground (arith, no_id)

  untracked :
      (requested reused : Option Text) (ts_ms : ℤ) (p : Pending Done)
      → requested ≡ none
      → p ≡ []
      → invalidate serde libs lossy reused (note serde libs lossy requested ts_ms done p) ≡ []
  unfolding invalidate note remove
  untracked none none ts_ms p e h = h
  untracked none (some id) ts_ms [] e h = refl
  untracked none (some id) ts_ms (q ∷ qs) e h = cc
  untracked (some id) reused ts_ms p e h = cc

  on_message-IsIdle :
      (m : StorageMsg) (st : State)
      → IsNoToolsList serde m
      → IsIdle f st
      → IsIdle f (on_message serde libs lossy session m st)
  unfolding on_message on_tap track insert_security_event insert_inject_event apply_header_hint
  on_message-IsIdle (tap ev) st n h =
      let p = parse_line serde ev.raw ev.direction in
      respond-IsIdle ev p (response_id serde libs lossy ev p) _ (
        insert_frame-FingerprintsAre session.mode ev p st.conn h.0,
        untracked _ (reused_id serde libs lossy (codes "tools/list") ev p) ev.ts_ms
            st.pending_tools_list (no_request_id ev p n) h.1,
      )
  on_message-IsIdle (protocol_hint version) st n h =
      hint_from-IsIdle st.protocol_source version st h
  on_message-IsIdle (security ev) st n h =
      (write_keeps (FingerprintsAre f) (λ _. done) _ st.conn h.0 h.0, h.1)
  on_message-IsIdle (inject ev) st n h =
      (write_keeps (FingerprintsAre f) (λ _. done) _ st.conn h.0 h.0, h.1)

  on_messages-IsIdle :
      (ms : List StorageMsg) (st : State)
      → All (IsNoToolsList serde) ms
      → IsIdle f st
      → IsIdle f (on_messages serde libs lossy session ms st)
  unfolding on_messages
  on_messages-IsIdle [] st n h = h
  on_messages-IsIdle (m ∷ ms) st n h = on_messages-IsIdle ms _ n.1 (on_message-IsIdle m st n.0 h)

-- While the client sends no `tools/list` request with an id and none waits for its response, no
-- message touches the fingerprints, whatever the server sends: a response that looks like a list of
-- tools included, and a `tools/list` request of the server too.
pub on_messages-fingerprints :
    (serde : Serde) (libs : Libs) (lossy : Bytes → Text) (session : Session) (ms : List StorageMsg)
    (st : State)
    → st.pending_tools_list ≡ []
    → All (IsNoToolsList serde) ms
    → (on_messages serde libs lossy session ms st).conn.tables.fingerprints
      ≡ st.conn.tables.fingerprints
on_messages-fingerprints serde libs lossy session ms st e n =
    (on_messages-IsIdle serde libs lossy session st.conn.tables.fingerprints ms st n (refl, e)).0
