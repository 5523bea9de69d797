-- ===== src/Replay.antt =====
-- The arguments of a recorded command: crates/cli/src/replay.rs. Code points that are white space
-- are a parameter, as the standard library decides them.
use mcpglass.Base.{
  ℕ, Option, none, some, List, [], ◌∷◌, ◌++◌, map, Bool, true, false, ◌||◌, ◌==◌, if◌then◌else◌,
}
use mcpglass.Base.Text.{Text, codes, text_eq, starts_with}
use mcpglass.Clients.Entry.{to_ascii_lowercase}
use mcpglass.Command.Units.{trim_start}
pub mod Quotes

-- The variables of the loop.
pub record Split : Type 0 where
  pub parts : List Text
  pub cur : Text
  pub in_token : Bool
  pub quote : Option ℕ

module _ (is_whitespace : ℕ → Bool) where
  -- Inside a quoted run.
  unfoldable pub quoted_char : Split → ℕ → ℕ → Split
  quoted_char s q c =
      if c == q then record s { quote = none } else record s { cur = s.cur ++ c ∷ [] }

  unfoldable pub close_token : Split → Split
  close_token s =
      if s.in_token
      then record s { parts = s.parts ++ s.cur ∷ []; cur = []; in_token = false }
      else s

  unfoldable pub plain_char : Split → ℕ → Split
  plain_char s c =
      if c == b'"' || c == b'\''
      then record s { quote = some c; in_token = true }
      else if is_whitespace c
      then close_token s
      else record s { cur = s.cur ++ c ∷ []; in_token = true }

  unfoldable pub on_char : Split → ℕ → Split
  on_char s c = on_quote s.quote
    where
      on_quote : Option ℕ → Split
      on_quote (some q) = quoted_char s q c
      on_quote none = plain_char s c

  unfoldable pub each_char : Split → Text → Split
  each_char s [] = s
  each_char s (c ∷ cs) = each_char (on_char s c) cs

  unfoldable pub last_token : Split → List Text
  last_token s = if s.in_token then s.parts ++ s.cur ∷ [] else s.parts

  abbrev pub fresh : List Text → Split
  fresh parts = record { parts = parts; cur = []; in_token = false; quote = none }

  unfoldable pub split_command : Text → List Text
  split_command command = last_token (each_char (fresh []) command)

  -- The recorded arguments where they are read as JSON, else the split of the command.
  unfoldable pub stdio_argv : (Text → Option (List Text)) → Text → Option Text → List Text
  stdio_argv from_str command none = split_command command
  stdio_argv from_str command (some j) = elim (from_str j) [
    | none ↦ split_command command
    | some argv ↦ argv
  ]

  -- The scheme of a command whose transport was not recorded.
  unfoldable pub is_http_command : Text → Bool
  is_http_command command =
      let lower = map to_ascii_lowercase (trim_start is_whitespace command) in
      starts_with (codes "http://") lower || starts_with (codes "https://") lower

  unfoldable pub replay_is_http : Text → Option Text → Bool
  replay_is_http command none = is_http_command command
  replay_is_http command (some transport) =
      if text_eq transport (codes "http")
      then true
      else if text_eq transport (codes "stdio")
      then false
      else is_http_command command
