-- ===== src/Tap/Session/Bodies.antt =====
-- What a whole session stores of the bodies when the recording mode is not `full`.
use mcpglass.Base.{ℕ, Option, none, some, List, ◌≡◌, All, ◌⊎◌}
use mcpglass.Base.Text.{Text, Bytes}
use mcpglass.Json.{Serde}
use mcpglass.Policy.Libs.{Libs}
use mcpglass.Storage.Sql.{done, Conn}
use mcpglass.Storage.Sql.Writes.{write_keeps}
use mcpglass.Storage.Database.{Database, begin_session_with_identity, end_session}
use mcpglass.Tap.State.{metadata, off, StorageMsg}
use mcpglass.Tap.Loop.Private.{IsBodyless, on_messages-AreBodyless}
use mcpglass.Tap.Session.{Setup, initial, session_of, with_session, storage_loop}

abbrev AreBodyless : Database → Type 0
AreBodyless t = All IsBodyless t.messages

with_session-AreBodyless :
    (serde : Serde) (libs : Libs) (lossy : Bytes → Text) (setup : Setup) (ms : List StorageMsg)
    (r : Option ℕ × Conn Database)
    → (setup.mode ≡ metadata) ⊎ (setup.mode ≡ off)
    → AreBodyless r.1.tables
    → AreBodyless (with_session serde libs lossy setup ms r).tables
unfolding with_session end_session session_of initial
with_session-AreBodyless serde libs lossy setup ms (none, c) mode h = h
with_session-AreBodyless serde libs lossy setup ms (some id, c) mode h =
    let kept =
      on_messages-AreBodyless serde libs lossy (session_of serde libs setup id) ms (initial c) mode
        h in
    write_keeps AreBodyless (λ _. done) _ _ kept kept

-- In the modes `metadata` and `off` a session stores no body, whatever messages reach the storage
-- thread and whichever writes fail, its begin and its end included: if the messages of the database
-- have no body before, they have none after.
pub storage_loop-AreBodyless :
    (serde : Serde) (libs : Libs) (lossy : Bytes → Text) (setup : Setup) (ms : List StorageMsg)
    (c : Conn Database)
    → (setup.mode ≡ metadata) ⊎ (setup.mode ≡ off)
    → All IsBodyless c.tables.messages
    → All IsBodyless (storage_loop serde libs lossy setup ms c).tables.messages
unfolding storage_loop begin_session_with_identity
storage_loop-AreBodyless serde libs lossy setup ms c mode h =
    with_session-AreBodyless serde libs lossy setup ms _ mode
      (write_keeps AreBodyless (λ t. t.next_session) _ c h h)
