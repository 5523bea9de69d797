-- ===== src/Tests/Command.antt =====
-- The pruning of two sessions from the command line.
use mcpglass.Base.{
  ℕ, ◌*◌, ◌^◌, some, [], ◌∷◌, ◌++◌, ◌≡◌, refl, true, ltb, Bool, if◌then◌else◌, ◌==◌, length,
}
use mcpglass.Base.Text.{codes}
use mcpglass.Base.Int.{pos}
use mcpglass.Storage.Prune.Preview.{sound}
use mcpglass.Command.Units.{
  ok, failed, overflow, not_a_number, is_ascii_digit, size_unit, parse_size_bytes,
}
use mcpglass.Command.Units.Exact.{number, parse_size_bytes-exact}
use mcpglass.Command.Prune.{Args, run}
use mcpglass.Command.Prune.Dry.{run-Spares}
use mcpglass.Tests.Storage.{database, pages}

abbrev is_space : ℕ → Bool
is_space c = c == b' '

parse_size_bytes-exact_example : parse_size_bytes is_space (codes "250" ++ b'K' ∷ []) ≡ (
    if ltb (number 0 (codes "250")) (2 ^ 64)
    then if ltb (number 0 (codes "250") * 1024) (2 ^ 64)
      then ok (number 0 (codes "250") * 1024)
      else failed overflow
    else failed (not_a_number (codes "250")))
unfolding is_ascii_digit size_unit
parse_size_bytes-exact_example =
    parse_size_bytes-exact is_space (codes "250") b'K' 1024 (refl, (refl, (refl, tt))) (λ e. cc)
      refl (refl, (refl, (refl, (refl, tt))))

abbrev args : Args
args = record {
  older_than = some (codes "7d");
  max_size = some (codes "1");
  dry_run = true;
  vacuum = true;
  now = pos 90;
  opens = true;
  is_whitespace = is_space;
  byte_len = length;
  pages = pages;
}

run-Spares_example : (run args (sound database)).1.tables ≡ database
run-Spares_example = run-Spares args refl (sound database)
