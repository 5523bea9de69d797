-- ===== src/Storage/Prune/Estimate.antt =====
-- The dry run of pruning to a size: crates/storage/src/lib.rs.
use mcpglass.Base.{ℕ, ◌+◌, ◌-◌, some, List, [], ◌∷◌, ◌==◌, leb, map, if◌then◌else◌}
use mcpglass.Base.Text.{Text}
use mcpglass.Base.Int.{ℤ}
use mcpglass.Storage.Sql.{Sql, pure, ◌>>=◌, statement}
use mcpglass.Storage.Database.{SessionRow, MessageRow, Database}
use mcpglass.Storage.Prune.{PruneStats, count_rows, count_where}
use mcpglass.Storage.Prune.MaxSize.{Pages, no_stats, add_assign, is_older, db_used_bytes}

pub record SessionSize : Type 0 where
  pub id : ℕ
  pub started_at_ms : ℤ
  pub est_bytes : ℕ

unfoldable pub preview_session : ℕ → Sql Database PruneStats
preview_session id = do
  sessions ← count_rows (λ t. count_where (λ s. s.id == id) t.sessions)
  messages ← count_rows (λ t. count_where (λ m. m.session_id == id) t.messages)
  security_events ← count_rows (λ t. count_where (λ e. e.0 == id) t.security_events)
  inject_events ← count_rows (λ t. count_where (λ e. e.0 == id) t.inject_events)
  pure (record {
    sessions = sessions;
    messages = messages;
    security_events = security_events;
    inject_events = inject_events;
  })

unfoldable pub insert_by_age : SessionRow → List SessionRow → List SessionRow
insert_by_age s [] = s ∷ []
insert_by_age s (t ∷ ts) = if is_older t s then t ∷ insert_by_age s ts else s ∷ t ∷ ts

-- `ORDER BY s.started_at_ms ASC, s.id ASC`.
unfoldable pub by_age : List SessionRow → List SessionRow
by_age [] = []
by_age (s ∷ ss) = insert_by_age s (by_age ss)

-- `byte_len` is `length(CAST(raw AS BLOB))`.
module _ (byte_len : Text → ℕ) where
  unfoldable pub sum_raw : ℕ → List MessageRow → ℕ
  sum_raw id [] = 0
  sum_raw id (m ∷ ms) =
      if m.session_id == id then byte_len m.entry.raw + sum_raw id ms else sum_raw id ms

  unfoldable pub size_of_session : Database → SessionRow → SessionSize
  size_of_session t s = record {
    id = s.id;
    started_at_ms = s.started_at_ms;
    est_bytes = sum_raw s.id t.messages;
  }

  unfoldable pub session_size_estimates : Sql Database (List SessionSize)
  session_size_estimates = statement (λ t. some (map (size_of_session t) (by_age t.sessions), t))

  -- The walk over the estimates: it goes on while too much remains.
  unfoldable pub preview_walk : ℕ → List SessionSize → ℕ → PruneStats → Sql Database PruneStats
  preview_walk target_bytes [] remaining acc = pure acc
  preview_walk target_bytes (s ∷ ss) remaining acc =
      if leb remaining target_bytes
      then pure acc
      else preview_session s.id >>= λ stats.
          preview_walk target_bytes ss (remaining - s.est_bytes) (add_assign acc stats)

  unfoldable pub preview_max_size : Pages → ℕ → Sql Database PruneStats
  preview_max_size pages target_bytes = db_used_bytes pages >>= λ remaining.
      session_size_estimates >>= λ sizes. preview_walk target_bytes sizes remaining no_stats
