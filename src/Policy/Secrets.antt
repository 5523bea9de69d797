-- ===== src/Policy/Secrets.antt =====
-- `scan_secrets`, `mask_secrets` and `scan_request_arguments`. Pattern
-- matching itself is the crate `regex`, a parameter.
pub mod Reach
pub mod Previews
use mcpglass.Base.{ℕ, suc, List, [], ◌∷◌, ◌++◌, Option, none, some, map, if◌then◌else◌, concat}
use mcpglass.Base.Text.{Text, codes}
use mcpglass.Json.{
  Value, null, bool, number, string, array, object, Items, nil, cons, Fields, end, field, get,
  is_object, ◌>>=◌,
}
use mcpglass.Policy.Libs.{Regex, Libs}
use mcpglass.Policy.Mask.{mask}

pub record SecretHit : Type 0 where
  pub pattern_name : Text
  pub matched_preview : Text

-- The hits of one pattern.
unfoldable pub hits_of : Text → List Text → List SecretHit
hits_of name [] = []
hits_of name (m ∷ ms) = record { pattern_name = name; matched_preview = mask m } ∷ hits_of name ms

-- The names and the pattern texts of `builtin_patterns()`.
abbrev pub builtin_sources : List (Text × Text)
builtin_sources =
    (codes "aws_access_key", codes "AKIA[0-9A-Z]{16}")
    ∷ (codes "github_token", codes "ghp_[A-Za-z0-9]{36}")
    ∷ (codes "github_pat", codes "github_pat_[A-Za-z0-9_]{22,}")
    ∷ (codes "anthropic_api_key", codes "sk-ant-[A-Za-z0-9-]{20,}")
    ∷ (codes "openai_api_key", codes "sk-[A-Za-z0-9]{20,}")
    ∷ (codes "slack_token", codes "xox[baprs]-[A-Za-z0-9-]{10,}")
    ∷ (codes "google_api_key", codes "AIza[0-9A-Za-z_\\-]{35}")
    ∷ (codes "private_key", codes "-----BEGIN (RSA |EC )?PRIVATE KEY-----")
    ∷ (codes "jwt", codes "eyJ[A-Za-z0-9_\\-]+\\.eyJ[A-Za-z0-9_\\-]+\\.[A-Za-z0-9_\\-]+")
    ∷ []

unfoldable pub compile_builtin : Libs → List (Text × Text) → List (Text × Regex)
compile_builtin libs [] = []
compile_builtin libs ((name, pattern') ∷ ps) =
    (name, libs.regex_unwrap pattern') ∷ compile_builtin libs ps

abbrev pub builtin_patterns : Libs → List (Text × Regex)
builtin_patterns libs = compile_builtin libs builtin_sources

-- The pass over `builtin_patterns()`.
unfoldable pub scan_builtin : List (Text × Regex) → Text → List SecretHit
scan_builtin [] text = []
scan_builtin ((name, re) ∷ ps) text = hits_of name (re.find_iter text) ++ scan_builtin ps text

-- `format!("custom[{i}]")`, over the decimal text of a number.
abbrev pub custom_name : (ℕ → Text) → ℕ → Text
custom_name decimal i = codes "custom[" ++ (decimal i ++ codes "]")

-- The pass over the custom patterns, from the index `i` on.
unfoldable pub scan_custom : (ℕ → Text) → ℕ → List Regex → Text → List SecretHit
scan_custom decimal i [] text = []
scan_custom decimal i (re ∷ res) text =
    hits_of (custom_name decimal i) (re.find_iter text) ++ scan_custom decimal (suc i) res text

unfoldable pub scan_secrets : Libs → Text → List Regex → List SecretHit
scan_secrets libs text custom =
    scan_builtin (builtin_patterns libs) text ++ scan_custom libs.decimal 0 custom text

-- One pattern after another, each over the text that the one before it left.
unfoldable pub replace_each : List Regex → Text → Text
replace_each [] out = out
replace_each (re ∷ res) out = replace_each res (re.replace_all mask out)

abbrev pub regexes : List (Text × Regex) → List Regex
regexes [] = []
regexes ((_, re) ∷ ps) = re ∷ regexes ps

unfoldable pub mask_secrets_impl : Libs → Text → List Regex → Text
mask_secrets_impl libs text custom =
    replace_each custom (replace_each (regexes (builtin_patterns libs)) text)

-- `mask_secrets`, with the built-in patterns alone.
unfoldable pub mask_secrets : Libs → Text → Text
mask_secrets libs text = mask_secrets_impl libs text []

-- Every string value below a value, in order.
unfoldable mutual
  pub collect_strings : Value → List Text
  collect_strings null = []
  collect_strings (bool b) = []
  collect_strings (number n) = []
  collect_strings (string s) = s ∷ []
  collect_strings (array xs) = collect_items xs
  collect_strings (object fs) = collect_fields fs

  pub collect_items : Items → List Text
  collect_items nil = []
  collect_items (cons v vs) = collect_strings v ++ collect_items vs

  pub collect_fields : Fields → List Text
  collect_fields end = []
  collect_fields (field k v fs) = collect_strings v ++ collect_fields fs

unfoldable pub scan_all : Libs → List Regex → List Text → List SecretHit
scan_all libs custom [] = []
scan_all libs custom (s ∷ ss) = scan_secrets libs s custom ++ scan_all libs custom ss

-- `request_json.get("params").and_then(|p| p.get("arguments"))`.
unfoldable pub arguments : Value → Option Value
arguments request = get (codes "params") request >>= get (codes "arguments")

unfoldable pub scan_request_arguments : Libs → Value → List Regex → List SecretHit
scan_request_arguments libs request custom = elim (arguments request) [
  | none ↦ []
  | some v ↦ if is_object v then scan_all libs custom (collect_strings v) else []
]
