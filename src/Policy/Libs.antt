-- ===== src/Policy/Libs.antt =====
-- What crates/policy takes from code outside the repository: the crate `regex`, the formatting of
-- the standard library, SHA-256, and the TOML reader.
use mcpglass.Base.{ℕ, List, Option}
use mcpglass.Base.Text.{Text, Bytes}

-- A compiled `regex::Regex`: the matches of a text, in order, and the text with every match
-- replaced by what a function makes of it.
pub record Regex : Type 0 where
  pub find_iter : Text → List Text
  pub replace_all : (Text → Text) → Text → Text

pub record Libs : Type 0 where
  -- `Regex::new`, and `Regex::new(p).unwrap()` at a constant pattern.
  pub regex_new : Text → Option Regex
  pub regex_unwrap : Text → Regex
  -- `{i}` and `{s:?}` of `format!`.
  pub decimal : ℕ → Text
  pub debug : Text → Text
  -- `Sha256` over the bytes of a text.
  pub sha256 : Text → Bytes
