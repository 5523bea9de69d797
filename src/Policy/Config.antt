-- ===== src/Policy/Config.antt =====
-- `Policy` and its loading. TOML parsing is the crate `toml`: `from_toml_str` starts from the
-- table that it reads, or from its refusal.
use mcpglass.Base.{List, [], ◌∷◌, Bool, true, Option, some}
use mcpglass.Base.Text.{Text}
use mcpglass.Json.{◌>>=◌}
use mcpglass.Policy.Libs.{Regex, Libs}

pub data Mode : Type 0 where
  monitor enforce : Mode

pub record Policy : Type 0 where
  pub mode : Mode
  pub allow : List Text
  pub deny : List Text
  pub secret_scan : Bool
  pub custom_secret_patterns : List Text
  pub custom_compiled : List Regex

-- The table, where a key that the file leaves out has its default.
pub record PolicyToml : Type 0 where
  pub mode : Mode
  pub allow : List Text
  pub deny : List Text
  pub secret_scan : Bool
  pub custom_secret_patterns : List Text

abbrev pub default : Policy
default = record {
  mode = monitor;
  allow = [];
  deny = [];
  secret_scan = true;
  custom_secret_patterns = [];
  custom_compiled = [];
}

-- `collect` into a `Result`: the first pattern that does not compile is an error.
unfoldable pub compile_custom : Libs → List Text → Option (List Regex)
compile_custom libs [] = some []
compile_custom libs (p ∷ ps) = do
  re ← libs.regex_new p
  res ← compile_custom libs ps
  some (re ∷ res)

-- `read` is `toml::from_str`.
unfoldable pub from_toml_str : Libs → (Text → Option PolicyToml) → Text → Option Policy
from_toml_str libs read s = do
  toml ← read s
  compiled ← compile_custom libs toml.custom_secret_patterns
  some (record {
    mode = toml.mode;
    allow = toml.allow;
    deny = toml.deny;
    secret_scan = toml.secret_scan;
    custom_secret_patterns = toml.custom_secret_patterns;
    custom_compiled = compiled;
  })
