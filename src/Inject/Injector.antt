-- ===== src/Inject/Injector.antt =====
-- `Injector::decide`.
pub mod Limits
pub mod Firings
pub mod Draws
use mcpglass.Base.{
  ℕ, ◌+◌, ◌%◌, List, [], ◌∷◌, Bool, true, false, not, ◌&&◌, Option, none, some, leb, length,
  replicate, if◌then◌else◌,
}
use mcpglass.Base.Text.{Text}
use mcpglass.Json.{unwrap_or}
use mcpglass.Policy.Rules.{matches_rule}
use mcpglass.Inject.Float.{F64, lt_one, ge}
use mcpglass.Inject.Rng
use mcpglass.Inject.Rng.{XorShift64Star, next_f64, word}
use mcpglass.Inject.Config.{InjectDirection, c2s, s2c, Fault, Rule, InjectConfig}

pub record InjectHit : Type 0 where
  pub rule_label : Text
  pub fault : Fault

pub record Injector : Type 0 where
  pub rules : List Rule
  pub counts : List ℕ
  pub rng : XorShift64Star

-- `entropy` is the seed that the clock gives where the file has none.
unfoldable pub new : ℕ → InjectConfig → Injector
new entropy cfg = record {
  rules = cfg.rules;
  counts = replicate (length cfg.rules) 0;
  rng = Rng.new (unwrap_or cfg.seed entropy);
}

unfoldable pub same_direction : InjectDirection → InjectDirection → Bool
same_direction c2s c2s = true
same_direction s2c s2c = true
same_direction _ _ = false

-- A rule without a filter accepts every frame; a rule with one no frame without a method.
unfoldable pub method_matches : Option Text → Option Text → Bool
method_matches none method = true
method_matches (some pat) none = false
method_matches (some pat) (some m) = matches_rule pat m

unfoldable pub is_exhausted : Option ℕ → ℕ → Bool
is_exhausted none count = false
is_exhausted (some max) count = leb max count

unfoldable pub is_eligible : InjectDirection → Option Text → Rule → ℕ → Bool
is_eligible dir method rule count =
    same_direction rule.direction dir
    && method_matches rule.method method
    && not (is_exhausted rule.max_triggers count)

-- Whether an eligible rule fires. A certain rule draws no random number.
unfoldable pub roll : Rule → XorShift64Star → Bool × XorShift64Star
roll rule rng =
    if lt_one rule.probability
    then (let drawn = next_f64 rng in (not (ge drawn.0 rule.probability), drawn.1))
    else (true, rng)

abbrev pub Outcome : Type 0
Outcome = Option InjectHit × List ℕ × XorShift64Star

-- `continue`: the counter of the rule stays as it is.
abbrev pub passed_over : ℕ → Outcome → Outcome
passed_over count o = (o.0, count ∷ o.1, o.2)

abbrev pub hit_of : Rule → InjectHit
hit_of rule = record { rule_label = rule.label; fault = rule.fault }

-- The loop over the rules and, beside them, their counters. `counts[i]` is there for every rule:
-- the two lists are equally long.
unfoldable pub decide_loop :
    InjectDirection → Option Text → List Rule → List ℕ → XorShift64Star → Outcome
decide_loop dir method [] counts rng = (none, counts, rng)
decide_loop dir method (rule ∷ rules) [] rng = (none, [], rng)
decide_loop dir method (rule ∷ rules) (count ∷ counts) rng =
    elim (is_eligible dir method rule count) [
      | false ↦ passed_over count (decide_loop dir method rules counts rng)
      | true ↦ elim (roll rule rng).0 [
        | false ↦ passed_over count (decide_loop dir method rules counts (roll rule rng).1)
        | true ↦ (some (hit_of rule), ((count + 1) % word) ∷ counts, (roll rule rng).1)
      ]
    ]

unfoldable pub decide : Injector → InjectDirection → Option Text → Option InjectHit × Injector
decide inj dir method =
    let o = decide_loop dir method inj.rules inj.counts inj.rng in
    (o.0, record inj { counts = o.1; rng = o.2 })
