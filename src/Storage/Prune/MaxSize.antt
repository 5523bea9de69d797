-- ===== src/Storage/Prune/MaxSize.antt =====
-- Pruning to a size: `prune_to_max_size` of crates/storage/src/lib.rs.
use mcpglass.Base.{
  ℕ, ◌+◌, ◌-◌, ◌*◌, zero, suc, Option, none, some, List, [], ◌∷◌, Bool, true, false, not, ◌&&◌,
  ◌||◌, leb, ltb, length, if◌then◌else◌,
}
use mcpglass.Base.Int.{ℤ, int_lt}
use mcpglass.Storage.Sql.{Conn, Sql, pure, ◌>>=◌, followed, statement}
use mcpglass.Storage.Database.{SessionRow, Database}
use mcpglass.Storage.Prune.{PruneStats, count_rows, delete_session}
pub mod Terminates

-- The pragmas of SQLite on the file of the tables.
pub record Pages : Type 0 where
  pub page_count : Database → ℕ
  pub freelist_count : Database → ℕ
  pub page_size : Database → ℕ

abbrev pub no_stats : PruneStats
no_stats = record { sessions = 0; messages = 0; security_events = 0; inject_events = 0 }

-- `PruneStats::add_assign`.
unfoldable pub add_assign : PruneStats → PruneStats → PruneStats
add_assign a b = record {
  sessions = a.sessions + b.sessions;
  messages = a.messages + b.messages;
  security_events = a.security_events + b.security_events;
  inject_events = a.inject_events + b.inject_events;
}

-- `ORDER BY started_at_ms ASC, id ASC`.
unfoldable pub is_older : SessionRow → SessionRow → Bool
is_older a b =
    int_lt a.started_at_ms b.started_at_ms
    || (not (int_lt b.started_at_ms a.started_at_ms) && ltb a.id b.id)

unfoldable pub older_of : SessionRow → Option SessionRow → SessionRow
older_of s none = s
older_of s (some t) = if is_older t s then t else s

unfoldable pub oldest_row : List SessionRow → Option SessionRow
oldest_row [] = none
oldest_row (s ∷ ss) = some (older_of s (oldest_row ss))

unfoldable pub id_of : Option SessionRow → Option ℕ
id_of none = none
id_of (some s) = some s.id

unfoldable pub oldest_session : Sql Database (Option ℕ)
oldest_session = statement (λ t. some (id_of (oldest_row t.sessions), t))

unfoldable pub used_bytes : Pages → Database → ℕ
used_bytes pages t = (pages.page_count t - pages.freelist_count t) * pages.page_size t

unfoldable pub db_used_bytes : Pages → Sql Database ℕ
db_used_bytes pages = do
  page_count ← count_rows pages.page_count
  freelist ← count_rows pages.freelist_count
  page_size ← count_rows pages.page_size
  pure ((page_count - freelist) * page_size)

-- The loop with its exits: `none` is the end of the fuel.
abbrev pub Loop : Type 0
Loop = PruneStats → Sql Database (Option PruneStats)

unfoldable pub after_delete :
    Loop → PruneStats → Option PruneStats → Sql Database (Option PruneStats)
after_delete next acc none = pure (some acc)
after_delete next acc (some s) = next (add_assign acc s)

unfoldable pub drop_oldest : Loop → PruneStats → Option ℕ → Sql Database (Option PruneStats)
drop_oldest next acc none = pure (some acc)
drop_oldest next acc (some oldest) = delete_session oldest >>= after_delete next acc

unfoldable pub unless_small : Loop → PruneStats → Bool → Sql Database (Option PruneStats)
unless_small next acc true = pure (some acc)
unless_small next acc false = oldest_session >>= drop_oldest next acc

module _ (pages : Pages) (target_bytes : ℕ) where
  unfoldable pub prune_loop : ℕ → Loop
  prune_loop zero acc = pure none
  prune_loop (suc fuel) acc =
      db_used_bytes pages >>= λ used. unless_small (prune_loop fuel) acc (leb used target_bytes)

  -- The fuel is one round more than there are sessions.
  unfoldable pub prune_to_max_size : Sql Database (Option PruneStats)
  prune_to_max_size c = prune_loop (suc (length c.tables.sessions)) no_stats c
