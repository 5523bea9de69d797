-- ===== src/Command/Prune.antt =====
-- The command `mcpglass prune`: crates/cli/src/prune.rs, but for what it prints.
use mcpglass.Base.{
  ℕ, ◌*◌, Option, none, some, List, [], ◌∷◌, Bool, true, false, ◌||◌, ◌&&◌, not, if◌then◌else◌,
}
use mcpglass.Base.Text.{Text}
use mcpglass.Base.Int.{ℤ, sub}
use mcpglass.Storage.Sql.{Done, done, Conn, Sql, pure, ◌>>=◌, followed, statement}
use mcpglass.Storage.Database.{Database}
use mcpglass.Storage.Prune.{PruneStats, count_rows, prune_sessions_before, preview_sessions_before}
use mcpglass.Storage.Prune.MaxSize.{Pages, prune_to_max_size}
use mcpglass.Storage.Prune.Estimate.{preview_max_size}
use mcpglass.Command.Units.{Parsed, ok, failed, parse_duration_ms, parse_size_bytes}
pub mod Dry

-- The arguments, the clock, and what else the command asks of its surroundings.
pub record Args : Type 0 where
  pub older_than : Option Text
  pub max_size : Option Text
  pub dry_run : Bool
  pub vacuum : Bool
  pub now : ℤ
  pub opens : Bool
  pub is_whitespace : ℕ → Bool
  pub byte_len : Text → ℕ
  pub pages : Pages

-- A value that is not given, that is no number with a unit, or a number.
pub data Limit : Type 0 where
  absent : Limit
  invalid : Limit
  limit : ℕ → Limit

unfoldable pub limit_of : (Text → Parsed) → Option Text → Limit
limit_of parse none = absent
limit_of parse (some s) = elim (parse s) [ ok n ↦ limit n | failed e ↦ invalid ]

unfoldable pub is_given : Limit → Bool
is_given absent = false
is_given invalid = true
is_given (limit n) = true

-- `VACUUM` changes no row.
unfoldable pub vacuum : Sql Database Done
vacuum = statement (λ t. some (done, t))

-- `db_size_bytes`, whose failure is ignored.
unfoldable pub read_size : Pages → Conn Database → Conn Database
read_size pages c =
    ((count_rows pages.page_count >>= λ n. count_rows pages.page_size >>= λ m. pure (n * m)) c).1

-- `1` where an operation fails, and else what follows.
unfoldable pub then_go :
    {A : Type 0}
    → (Conn Database → ℕ × Conn Database)
    → Option A × Conn Database
    → ℕ × Conn Database
then_go next (none, c) = (1, c)
then_go next (some a, c) = next c

module _ (args : Args) where
  unfoldable pub prune_older : ℕ → Sql Database PruneStats
  prune_older dur_ms =
      let cutoff = sub args.now dur_ms in
      if args.dry_run then preview_sessions_before cutoff else prune_sessions_before cutoff

  -- The loop or the walk, with its counts left out.
  unfoldable pub shrink : Bool → ℕ → Sql Database Done
  shrink true target = preview_max_size args.byte_len args.pages target >>= λ _. pure done
  shrink false target = prune_to_max_size args.pages target >>= λ _. pure done

  unfoldable pub prune_larger : ℕ → Sql Database Done
  prune_larger target = shrink args.dry_run target

  unfoldable pub finish : Conn Database → ℕ × Conn Database
  finish c = (0, read_size args.pages c)

  unfoldable pub realise : Limit → Conn Database → ℕ × Conn Database
  realise max_bytes c =
      if not args.dry_run && (is_given max_bytes || args.vacuum)
      then then_go finish (vacuum c)
      else finish c

  unfoldable pub after_older : Limit → Conn Database → ℕ × Conn Database
  after_older (limit target) c = then_go (realise (limit target)) (prune_larger target c)
  after_older max_bytes c = realise max_bytes c

  unfoldable pub with_store : Limit → Limit → Conn Database → ℕ × Conn Database
  with_store (limit dur_ms) max_bytes c = then_go (after_older max_bytes) (prune_older dur_ms c)
  with_store dur max_bytes c = after_older max_bytes c

  unfoldable pub when_open : Bool → Limit → Limit → Conn Database → ℕ × Conn Database
  when_open true dur max_bytes c = with_store dur max_bytes (read_size args.pages c)
  when_open false dur max_bytes c = (1, c)

  unfoldable pub open_store : Limit → Limit → Conn Database → ℕ × Conn Database
  open_store dur max_bytes c = when_open args.opens dur max_bytes c

  -- A usage error is `2`, and nothing is opened then.
  unfoldable pub checked : Limit → Limit → Conn Database → ℕ × Conn Database
  checked absent absent c = (2, c)
  checked invalid max_bytes c = (2, c)
  checked absent invalid c = (2, c)
  checked (limit dur_ms) invalid c = (2, c)
  checked absent (limit n) c = open_store absent (limit n) c
  checked (limit dur_ms) absent c = open_store (limit dur_ms) absent c
  checked (limit dur_ms) (limit n) c = open_store (limit dur_ms) (limit n) c

  unfoldable pub run : Conn Database → ℕ × Conn Database
  run c =
      checked (limit_of (parse_duration_ms args.is_whitespace) args.older_than)
        (limit_of (parse_size_bytes args.is_whitespace) args.max_size) c
