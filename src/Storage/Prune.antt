-- ===== src/Storage/Prune.antt =====
-- Deleting and pruning sessions: crates/storage/src/lib.rs. `PRAGMA foreign_keys`, which
-- `delete_with_fk_disabled` turns off for its transaction and then restores, is left out: the tables
-- here have no foreign keys.
use mcpglass.Base.{
  ℕ, ◌+◌, Option, none, some, List, [], ◌∷◌, Bool, true, false, ◌&&◌, ◌==◌, if◌then◌else◌, any,
}
use mcpglass.Base.Int.{ℤ, int_lt}
use mcpglass.Storage.Sql.{
  Done, Conn, Sql, pure, ◌>>=◌, followed, statement, begin, commit, rollback,
}
use mcpglass.Storage.Database.{SessionRow, MessageRow, Database}
pub mod Baseline
pub mod Estimate
pub mod MaxSize
pub mod Preview
pub mod Sessions

pub record PruneStats : Type 0 where
  pub sessions : ℕ
  pub messages : ℕ
  pub security_events : ℕ
  pub inject_events : ℕ

-- `DELETE .. WHERE` and `SELECT COUNT(*) .. WHERE`.
unfoldable pub keep_unless : {A : Type 0} → (A → Bool) → List A → List A
keep_unless p [] = []
keep_unless p (x ∷ xs) = if p x then keep_unless p xs else x ∷ keep_unless p xs

unfoldable pub count_where : {A : Type 0} → (A → Bool) → List A → ℕ
count_where p [] = 0
count_where p (x ∷ xs) = if p x then count_where p xs + 1 else count_where p xs

-- A condition on the tables and a session id.
abbrev pub Where : Type 0
Where = Database → ℕ → Bool

unfoldable pub delete_messages : Where → Sql Database ℕ
delete_messages w = statement (λ t. some (
  count_where (λ m. w t m.session_id) t.messages,
  record t { messages = keep_unless (λ m. w t m.session_id) t.messages },
))

unfoldable pub delete_security_events : Where → Sql Database ℕ
delete_security_events w = statement (λ t. some (
  count_where (λ e. w t e.0) t.security_events,
  record t { security_events = keep_unless (λ e. w t e.0) t.security_events },
))

unfoldable pub delete_inject_events : Where → Sql Database ℕ
delete_inject_events w = statement (λ t. some (
  count_where (λ e. w t e.0) t.inject_events,
  record t { inject_events = keep_unless (λ e. w t e.0) t.inject_events },
))

unfoldable pub delete_sessions : (SessionRow → Bool) → Sql Database ℕ
delete_sessions p =
    statement
      (λ t. some (count_where p t.sessions, record t { sessions = keep_unless p t.sessions }))

unfoldable pub count_rows : (Database → ℕ) → Sql Database ℕ
count_rows f = statement (λ t. some (f t, t))

-- `COMMIT` behind a success, and `ROLLBACK` behind any failure.
unfoldable pub committed : {A : Type 0} → A → Option Done × Conn Database → Option A × Conn Database
committed a (some _, c) = (some a, c)
committed a (none, c) = (none, rollback c)

unfoldable pub settle_txn : {A : Type 0} → Option A × Conn Database → Option A × Conn Database
settle_txn (none, c) = (none, rollback c)
settle_txn (some a, c) = committed a (commit c)

unfoldable pub in_immediate_txn : {A : Type 0} → Sql Database A → Sql Database A
in_immediate_txn f = begin >>= λ _ c. settle_txn (f c)

-- `SELECT id FROM sessions WHERE started_at_ms < ?1`.
unfoldable pub is_before : ℤ → SessionRow → Bool
is_before cutoff_ms s = int_lt s.started_at_ms cutoff_ms

unfoldable pub is_of_session_before : ℤ → Where
is_of_session_before cutoff_ms t id = any (λ s. is_before cutoff_ms s && s.id == id) t.sessions

-- Children first, then the sessions.
unfoldable pub prune_rows : ℤ → Sql Database PruneStats
prune_rows cutoff_ms = do
  messages ← delete_messages (is_of_session_before cutoff_ms)
  security_events ← delete_security_events (is_of_session_before cutoff_ms)
  inject_events ← delete_inject_events (is_of_session_before cutoff_ms)
  sessions ← delete_sessions (is_before cutoff_ms)
  pure (record {
    sessions = sessions;
    messages = messages;
    security_events = security_events;
    inject_events = inject_events;
  })

unfoldable pub prune_sessions_before : ℤ → Sql Database PruneStats
prune_sessions_before cutoff_ms = in_immediate_txn (prune_rows cutoff_ms)

unfoldable pub preview_sessions_before : ℤ → Sql Database PruneStats
preview_sessions_before cutoff_ms = do
  let among = is_of_session_before cutoff_ms
  sessions ← count_rows (λ t. count_where (is_before cutoff_ms) t.sessions)
  messages ← count_rows (λ t. count_where (λ m. among t m.session_id) t.messages)
  security_events ← count_rows (λ t. count_where (λ e. among t e.0) t.security_events)
  inject_events ← count_rows (λ t. count_where (λ e. among t e.0) t.inject_events)
  pure (record {
    sessions = sessions;
    messages = messages;
    security_events = security_events;
    inject_events = inject_events;
  })

unfoldable pub is_session : ℕ → Where
is_session id t other = other == id

unfoldable pub delete_session_rows : ℕ → Sql Database PruneStats
delete_session_rows id = do
  messages ← delete_messages (is_session id)
  security_events ← delete_security_events (is_session id)
  inject_events ← delete_inject_events (is_session id)
  sessions ← delete_sessions (λ s. s.id == id)
  pure (record {
    sessions = sessions;
    messages = messages;
    security_events = security_events;
    inject_events = inject_events;
  })

-- `None` for an id that no session has.
unfoldable pub delete_existing : ℕ → Bool → Sql Database (Option PruneStats)
delete_existing id false = pure none
delete_existing id true = do stats ← in_immediate_txn (delete_session_rows id); pure (some stats)

unfoldable pub delete_session : ℕ → Sql Database (Option PruneStats)
delete_session id =
    statement (λ t. some (any (λ s. s.id == id) t.sessions, t)) >>= delete_existing id
