-- ===== src/Inject/Config.antt =====
-- `InjectConfig`: the rules of the file, validated. TOML parsing is the crate `toml`:
-- `from_toml_str` starts from the table that it reads.
pub mod Valid
use mcpglass.Base.{
  ℕ, suc, List, [], ◌∷◌, ◌++◌, Bool, true, false, Option, none, some, if◌then◌else◌,
}
use mcpglass.Base.Int.{ℤ}
use mcpglass.Base.Text.{Text, codes}
use mcpglass.Json.{◌>>=◌}
use mcpglass.Inject.Float.{F64, in_unit_range}

pub data InjectDirection : Type 0 where
  c2s s2c : InjectDirection

pub data Fault : Type 0 where
  delay : ℕ → Fault
  error : ℤ → Text → Fault
  drop : Fault
  truncate : ℕ → Fault

pub record RuleToml : Type 0 where
  pub direction : InjectDirection
  pub method : Option Text
  pub probability : F64
  pub max_triggers : Option ℕ
  pub fault : Fault

pub record InjectToml : Type 0 where
  pub seed : Option ℕ
  pub rules : List RuleToml

pub record Rule : Type 0 where
  pub label : Text
  pub direction : InjectDirection
  pub method : Option Text
  pub probability : F64
  pub max_triggers : Option ℕ
  pub fault : Fault

pub record InjectConfig : Type 0 where
  pub seed : Option ℕ
  pub rules : List Rule

-- `format!("rules[{i}]")`, over the decimal text of a number.
abbrev pub label_of : (ℕ → Text) → ℕ → Text
label_of decimal i = codes "rules[" ++ (decimal i ++ codes "]")

unfoldable pub compile_rule : (ℕ → Text) → ℕ → RuleToml → Rule
compile_rule decimal i r = record {
  label = label_of decimal i;
  direction = r.direction;
  method = r.method;
  probability = r.probability;
  max_triggers = r.max_triggers;
  fault = r.fault;
}

-- The loop over `raw.rules`, from the index `i` on: the first probability out of range is an error.
unfoldable pub compile_rules : (ℕ → Text) → ℕ → List RuleToml → Option (List Rule)
compile_rules decimal i [] = some []
compile_rules decimal i (r ∷ rs) =
    let rest = compile_rules decimal (suc i) rs in
    if in_unit_range r.probability
    then (do compiled ← rest; some (compile_rule decimal i r ∷ compiled))
    else none

-- `read` is `toml::from_str`.
unfoldable pub from_toml_str : (ℕ → Text) → (Text → Option InjectToml) → Text → Option InjectConfig
from_toml_str decimal read s = do
  raw ← read s
  rules ← compile_rules decimal 0 raw.rules
  some (record { seed = raw.seed; rules = rules })
