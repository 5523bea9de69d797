-- ===== src/Tests/Inject.antt =====
-- The injector on small inputs.
use mcpglass.Base.{ℕ, List, [], ◌∷◌, ◌≡◌, ◌↔◌, refl, true, Option, none, some, arith, All}
use mcpglass.Base.Int.{pos}
use mcpglass.Base.Text.{codes, text_eq}
use mcpglass.Inject.Float.{F64, finite, one, lt_one, in_unit_range}
use mcpglass.Inject.Rng.{XorShift64Star, next_f64}
use mcpglass.Inject.Config.{InjectDirection, c2s, s2c, drop, RuleToml, Rule, compile_rules}
use mcpglass.Inject.Config.Valid.{InUnitInterval, labelled, compile_rules-valid}
use mcpglass.Inject.Injector.{new, decide_loop}
use mcpglass.Inject.Injector.Limits.{Counted, decide_loop-Counted}
use mcpglass.Inject.Injector.Firings.{Obeys, firings, firings_at_most}
use mcpglass.Inject.Injector.Draws.{next_f64_range}

abbrev rule : InjectDirection → F64 → Option ℕ → Rule
rule dir p max = record {
  label = codes "rules[0]";
  direction = dir;
  method = none;
  probability = p;
  max_triggers = max;
  fault = drop;
}

abbrev zero_probability : F64
zero_probability = finite (pos 0)

abbrev generator : XorShift64Star
generator = record { state = 42 }

abbrev rules : List Rule
rules = rule s2c one (some 1) ∷ rule c2s one (some 2) ∷ []

abbrev second : Rule
second = record (rule c2s one (some 2)) { label = codes "rules[1]" }

abbrev labelled_rules : List Rule
labelled_rules = rule s2c one (some 1) ∷ second ∷ []

firings_at_most_example :
    All
      (λ r. Obeys r.max_triggers (
        firings r.label
          (new 7 (record { seed = some 1; rules = labelled_rules }))
          ((c2s, none) ∷ (s2c, none) ∷ (s2c, none) ∷ [])))
      labelled_rules
unfolding text_eq
firings_at_most_example =
    firings_at_most 7 (record { seed = some 1; rules = labelled_rules })
      ((c2s, none) ∷ (s2c, none) ∷ (s2c, none) ∷ []) ((refl, tt), (tt, tt))
      (omega arith, (omega arith, tt))

decide_loop-Counted_example :
    Counted c2s none rules
      (0 ∷ 1 ∷ [])
      (decide_loop c2s none rules (0 ∷ 1 ∷ []) generator).0
      (decide_loop c2s none rules (0 ∷ 1 ∷ []) generator).1
decide_loop-Counted_example =
    decide_loop-Counted c2s none rules (0 ∷ 1 ∷ []) generator (omega arith, (omega arith, tt))

next_f64_range_example :
    (in_unit_range (next_f64 generator).0 ≡ true) × (lt_one (next_f64 generator).0 ≡ true)
next_f64_range_example = next_f64_range generator

abbrev toml : RuleToml
toml = record {
  direction = c2s;
  method = none;
  probability = one;
  max_triggers = none;
  fault = drop;
}

compile_rules-valid_example :
    (compile_rules (λ n. n ∷ []) 0 (toml ∷ []) ≡ some (labelled (λ n. n ∷ []) 0 (toml ∷ []))) ↔ (
      All (λ r. InUnitInterval r.probability) (toml ∷ [])
      × (labelled (λ n. n ∷ []) 0 (toml ∷ []) ≡ labelled (λ n. n ∷ []) 0 (toml ∷ [])))
compile_rules-valid_example =
    compile_rules-valid (λ n. n ∷ []) 0 (toml ∷ []) (labelled (λ n. n ∷ []) 0 (toml ∷ []))
