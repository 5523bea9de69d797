-- ===== src/Tests/Replay.antt =====
-- The arguments of a replayed command.
use mcpglass.Base.{ℕ, none, some, List, [], ◌∷◌, map, All, ◌≡◌, refl, Bool, true, false, ◌==◌}
use mcpglass.Base.Text.{codes, text_eq, starts_with}
use mcpglass.Clients.Entry.{to_ascii_lowercase}
use mcpglass.Command.Units.{trim_start}
use mcpglass.Replay.{split_command, is_http_command, replay_is_http}
use mcpglass.Replay.Quotes.{
  Piece, IsWritable, bare, quoted, argument, command_line, split_command-command_line,
}

abbrev is_space : ℕ → Bool
is_space c = c == b' '

abbrev pieces : List Piece
pieces =
    quoted b'"' (codes "My Tools/mcp")
    ∷ bare b'-' (codes "f")
    ∷ quoted b'\'' []
    ∷ quoted b'\'' (codes "a b")
    ∷ []

written_pieces : All (IsWritable is_space) pieces
written_pieces = (
  (
    refl,
    (
      refl,
      (refl, (refl, (refl, (refl, (refl, (refl, (refl, (refl, (refl, (refl, (refl, tt))))))))))),
    ),
  ),
  (((refl, refl), ((refl, refl), tt)), ((refl, tt), ((refl, (refl, (refl, (refl, tt)))), tt))),
)

split_command-command_line_example :
    split_command is_space (command_line pieces) ≡ map argument pieces
split_command-command_line_example = split_command-command_line is_space pieces refl written_pieces

http_runs : replay_is_http is_space (codes "  HTTPS://a") none ≡ true
unfolding replay_is_http is_http_command trim_start to_ascii_lowercase starts_with
http_runs = refl

stdio_runs : replay_is_http is_space (codes "http://a") (some (codes "stdio")) ≡ false
unfolding replay_is_http text_eq
stdio_runs = refl
