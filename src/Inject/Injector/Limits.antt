-- ===== src/Inject/Injector/Limits.antt =====
-- The counters of the injector.
use mcpglass.Base.{
  ℕ, ◌+◌, ◌%◌, ◌≤◌, ◌<◌, List, [], ◌∷◌, ◌++◌, ◌≡◌, refl, ap, true, false, Option, none, some, arith,
  length, Bool-cases, inl, inr,
}
use mcpglass.Base.Text.{Text}
use mcpglass.Policy.Rules.{matches_rule}
use mcpglass.Inject.Rng.{XorShift64Star, word}
use mcpglass.Inject.Config.{InjectDirection, c2s, s2c, Rule}
use mcpglass.Inject.Injector.{
  InjectHit, same_direction, method_matches, is_exhausted, is_eligible, roll, hit_of, decide_loop,
}

abbrev pub Within : Option ℕ → ℕ → Type 0
Within none count = Unit
Within (some max) count = count ≤ max

-- One counter for each rule, none beyond the limit of its rule.
abbrev pub AreWithin : List Rule → List ℕ → Type 0
AreWithin [] [] = Unit
AreWithin [] (c ∷ cs) = ⊥
AreWithin (r ∷ rs) [] = ⊥
AreWithin (r ∷ rs) (c ∷ cs) = Within r.max_triggers c × AreWithin rs cs

-- A rule without a filter accepts every frame, and one with a filter those whose method matches.
abbrev pub Accepts : Option Text → Option Text → Type 0
Accepts none method = Unit
Accepts (some pat) none = ⊥
Accepts (some pat) (some m) = matches_rule pat m ≡ true

-- The limit is not reached.
abbrev pub Below : Option ℕ → ℕ → Type 0
Below none count = Unit
Below (some max) count = count < max

same_direction-same : (a b : InjectDirection) → same_direction a b ≡ true → a ≡ b
unfolding same_direction
same_direction-same c2s c2s h = refl
same_direction-same c2s s2c h = cc
same_direction-same s2c c2s h = cc
same_direction-same s2c s2c h = refl

method_matches-Accepts :
    (filter method : Option Text) → method_matches filter method ≡ true → Accepts filter method
unfolding method_matches
method_matches-Accepts none method h = tt
method_matches-Accepts (some pat) none h = absurd (wrong h)
  where
    wrong : false ≡ true → ⊥
    wrong q = cc
method_matches-Accepts (some pat) (some m) h = h

exhausted-Below : (max : Option ℕ) (count : ℕ) → is_exhausted max count ≡ false → Below max count
unfolding is_exhausted
exhausted-Below none count h = tt
exhausted-Below (some max) count h = ground (arith, h)

eligible_then :
    (dir : InjectDirection) (method : Option Text) (rule : Rule) (count : ℕ)
    → is_eligible dir method rule count ≡ true
    → (rule.direction ≡ dir) × Accepts rule.method method × Below rule.max_triggers count
unfolding is_eligible
eligible_then dir method rule count h = (
  same_direction-same rule.direction dir (ground (arith, h)),
  method_matches-Accepts rule.method method (ground (arith, h)),
  exhausted-Below rule.max_triggers count (ground (arith, h)),
)

-- The rule that a hit cites, with its place in the list: it is for the direction, it accepts the
-- method, its limit was not reached, and its counter alone
-- went up by one, modulo 2^64.
pub record Fired (dir : InjectDirection) (method : Option Text) (rules : List Rule)
    (counts : List ℕ) (hit : InjectHit) (counts' : List ℕ) : Type 0 where
  pub before : List Rule
  pub rule : Rule
  pub after : List Rule
  pub counts_before : List ℕ
  pub count : ℕ
  pub counts_after : List ℕ
  pub rules_split : rules ≡ before ++ rule ∷ after
  pub counts_split : counts ≡ counts_before ++ count ∷ counts_after
  pub same_place : length counts_before ≡ length before
  pub direction : rule.direction ≡ dir
  pub accepted : Accepts rule.method method
  pub below : Below rule.max_triggers count
  pub cites : hit ≡ hit_of rule
  pub counted : counts' ≡ counts_before ++ ((count + 1) % word) ∷ counts_after

-- What a frame does to the counters: nothing without a hit, and with a hit as `Fired` says.
abbrev pub Counted :
    InjectDirection → Option Text → List Rule → List ℕ → Option InjectHit → List ℕ → Type 0
Counted dir method rules counts none counts' = counts' ≡ counts
Counted dir method rules counts (some hit) counts' = Fired dir method rules counts hit counts'

Counted-later :
    (dir : InjectDirection) (method : Option Text) (r : Rule) (rs : List Rule) (c : ℕ) (cs : List ℕ)
    (hit : Option InjectHit) (cs' : List ℕ)
    → Counted dir method rs cs hit cs'
    → Counted dir method (r ∷ rs) (c ∷ cs) hit (c ∷ cs')
Counted-later dir method r rs c cs none cs' h = ap (λ x. c ∷ x) h
Counted-later dir method r rs c cs (some hit) cs' h = record {
  before = r ∷ h.before;
  rule = h.rule;
  after = h.after;
  counts_before = c ∷ h.counts_before;
  count = h.count;
  counts_after = h.counts_after;
  rules_split = ap (λ x. r ∷ x) h.rules_split;
  counts_split = ap (λ x. c ∷ x) h.counts_split;
  same_place = omega (arith, h.same_place);
  direction = h.direction;
  accepted = h.accepted;
  below = h.below;
  cites = h.cites;
  counted = ap (λ x. c ∷ x) h.counted;
}

-- Where each rule has its counter and none is beyond the limit of its rule, one frame moves at most
-- one of them: without a hit they all stay, and with a hit the counter of the rule that it cites
-- goes up by one, modulo 2^64, where that rule is for the direction of the frame, accepts its method
-- and had not reached its limit.
pub decide_loop-Counted :
    (dir : InjectDirection) (method : Option Text) (rules : List Rule) (counts : List ℕ)
    (rng : XorShift64Star)
    → AreWithin rules counts
    → Counted dir method rules counts
        (decide_loop dir method rules counts rng).0
        (decide_loop dir method rules counts rng).1
unfolding decide_loop
decide_loop-Counted dir method [] counts rng h = refl
decide_loop-Counted dir method (r ∷ rs) [] rng h = elim h [ ]
decide_loop-Counted dir method (r ∷ rs) (c ∷ cs) rng h =
    elim (Bool-cases (is_eligible dir method r c)) [
      | inr e ↦
          rw (e, decide_loop)
            (Counted-later dir method r rs c cs _ _ (decide_loop-Counted dir method rs cs rng h.1))
      | inl e ↦ elim (Bool-cases (roll r rng).0) [
        | inr f ↦
            rw (e, decide_loop)
              (rw f (
                Counted-later dir method r rs c cs _ _
                  (decide_loop-Counted dir method rs cs (roll r rng).1 h.1)))
        | inl f ↦
            rw (e, decide_loop)
              (rw f (record {
                before = [];
                rule = r;
                after = rs;
                counts_before = [];
                count = c;
                counts_after = cs;
                rules_split = refl;
                counts_split = refl;
                same_place = refl;
                direction = (eligible_then dir method r c e).0;
                accepted = (eligible_then dir method r c e).1;
                below = (eligible_then dir method r c e).2;
                cites = refl;
                counted = refl;
              }))
      ]
    ]
