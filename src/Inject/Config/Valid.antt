-- ===== src/Inject/Config/Valid.antt =====
-- What a configuration that loads is like.
use mcpglass.Base.{
  ℕ, suc, List, [], ◌∷◌, ◌≡◌, ◌↔◌, ◌++◌, ◌^◌, ◌≤◌, leb_iff, refl, true, Option, none, some, All,
  Bool-cases, inl, inr, Option-cases,
}
use mcpglass.Base.Text.{Text, codes}
use mcpglass.Base.Int.{pos, negsuc}
use mcpglass.Inject.Float.{F64, finite, infinity, neg_infinity, nan, one_units, in_unit_range}
use mcpglass.Inject.Config.{RuleToml, Rule, compile_rule, compile_rules}

-- A number from 0 to 1, the ends included: a multiple of 2^-1074, up to 2^1074 times. No infinity
-- and no NaN is one.
abbrev pub InUnitInterval : F64 → Type 0
InUnitInterval (finite (pos m)) = m ≤ 2 ^ 1074
InUnitInterval (finite (negsuc m)) = ⊥
InUnitInterval infinity = ⊥
InUnitInterval neg_infinity = ⊥
InUnitInterval nan = ⊥

in_unit_range_iff : (p : F64) → (in_unit_range p ≡ true) ↔ InUnitInterval p
unfolding in_unit_range one_units
in_unit_range_iff (finite (pos m)) = leb_iff m (2 ^ 1074)
in_unit_range_iff (finite (negsuc m)) = (λ h. cc, λ h. absurd h)
in_unit_range_iff infinity = (λ h. cc, λ h. absurd h)
in_unit_range_iff neg_infinity = (λ h. cc, λ h. absurd h)
in_unit_range_iff nan = (λ h. cc, λ h. absurd h)

-- The rules of the file with the labels `rules[i]`, `rules[i + 1]` and so on, in order.
abbrev pub labelled : (ℕ → Text) → ℕ → List RuleToml → List Rule
labelled decimal i [] = []
labelled decimal i (r ∷ rs) =
    (record {
      label = codes "rules[" ++ (decimal i ++ codes "]");
      direction = r.direction;
      method = r.method;
      probability = r.probability;
      max_triggers = r.max_triggers;
      fault = r.fault;
    })
    ∷ labelled decimal (suc i) rs

-- The rules of a file compile exactly when every probability lies in [0, 1], the ends included and
-- a NaN excluded; and then all of them are kept, in order and as they are, each labelled by its
-- index.
pub compile_rules-valid :
    (decimal : ℕ → Text) (i : ℕ) (rs : List RuleToml) (out : List Rule)
    → (compile_rules decimal i rs ≡ some out)
      ↔ (All (λ r. InUnitInterval r.probability) rs × (out ≡ labelled decimal i rs))
unfolding compile_rules compile_rule
compile_rules-valid decimal i [] out = (λ h. (tt, cc), λ h. cc (h.1))
compile_rules-valid decimal i (r ∷ rs) out = elim (Bool-cases (in_unit_range r.probability)) [
  | inr e ↦
      (λ h. cc (rw (e, compile_rules) at h), λ h. cc (e, (in_unit_range_iff r.probability).1 h.0.0))
  | inl e ↦ elim (Option-cases (compile_rules decimal (suc i) rs)) [
    | inl f ↦ (
      λ h. absurd (none_ne_some (rw (e, f, compile_rules) at h)),
      λ h. absurd (
          none_ne_some (
            f_some f (
              (compile_rules-valid decimal (suc i) rs (labelled decimal (suc i) rs)).1
                (h.0.1, refl)))),
    )
    | inr (rest, f) ↦
        let ih = (compile_rules-valid decimal (suc i) rs rest).0 f in
        (
          λ h. (
            ((in_unit_range_iff r.probability).0 e, ih.0),
            cc (ih.1, rw (e, f, compile_rules) at h),
          ),
          λ h. rw (e, f, compile_rules) (cc (ih.1, h.1)),
        )
  ]
]
  where
    none_ne_some : {x : List Rule} → none ≡ some x → ⊥
    none_ne_some h = cc

    f_some : {x : List Rule} {o : Option (List Rule)} → o ≡ none → o ≡ some x → none ≡ some x
    f_some p q = cc (p, q)
