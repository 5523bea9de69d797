-- ===== src/Inject/Injector/Firings.antt =====
-- How often a rule fires.
use mcpglass.Base.{
  ℕ, ◌+◌, ◌%◌, ◌^◌, ◌≤◌, ◌<◌, List, [], ◌∷◌, ◌≡◌, refl, sym, subst, true, false, Option, none, some,
  arith, length, replicate, Bool-cases, inl, inr, All, if◌then◌else◌,
}
use mcpglass.Base.Text.{Text, text_eq, text_eq_refl, text_eq_iff}
use mcpglass.Inject.Rng.{XorShift64Star, word}
use mcpglass.Inject.Config.{InjectDirection, Rule, InjectConfig}
use mcpglass.Inject.Injector.{
  InjectHit, Injector, new, is_exhausted, is_eligible, roll, decide_loop, decide,
}

-- Whether a hit cites the label, as a number.
abbrev pub cites : Text → Option InjectHit → ℕ
cites label none = 0
cites label (some hit) = if text_eq hit.rule_label label then 1 else 0

-- How many of the frames that come by, each with its direction and its method, the rule of that
-- label fires on.
abbrev pub firings : Text → Injector → List (InjectDirection × Option Text) → ℕ
firings label inj [] = 0
firings label inj ((dir, method) ∷ frames) =
    cites label (decide inj dir method).0 + firings label (decide inj dir method).1 frames

-- No two rules have one label.
abbrev pub AreDistinct : List Rule → Type 0
AreDistinct [] = Unit
AreDistinct (r ∷ rs) = All (λ q. text_eq r.label q.label ≡ false) rs × AreDistinct rs

-- A limit that fits 64 bits.
abbrev pub Fits : Option ℕ → Type 0
Fits none = Unit
Fits (some max) = max < 2 ^ 64

-- No more often than the limit.
abbrev pub Obeys : Option ℕ → ℕ → Type 0
Obeys none n = Unit
Obeys (some max) n = n ≤ max

-- The firings of a limited rule up to now are at most its counter, and that is at most its limit.
abbrev Tallied : Option ℕ → ℕ → ℕ → Type 0
Tallied none n count = Unit
Tallied (some max) n count = (n ≤ count) × (count ≤ max)

abbrev AreTallied : (Text → ℕ) → List Rule → List ℕ → Type 0
AreTallied n [] [] = Unit
AreTallied n [] (c ∷ cs) = ⊥
AreTallied n (r ∷ rs) [] = ⊥
AreTallied n (r ∷ rs) (c ∷ cs) = Tallied r.max_triggers (n r.label) c × AreTallied n rs cs

Tallied-same : (max : Option ℕ) (n m c : ℕ) → m ≡ n → Tallied max n c → Tallied max m c
Tallied-same none n m c e h = tt
Tallied-same (some max) n m c e h = rw e h

Tallied-next :
    (max : Option ℕ) (n m c : ℕ)
    → Fits max
    → is_exhausted max c ≡ false
    → m ≡ n + 1
    → Tallied max n c
    → Tallied max m ((c + 1) % word)
unfolding is_exhausted
Tallied-next none n m c fits e same h = tt
Tallied-next (some max) n m c fits e same h = ground (arith, fits, e, same, h)

Tallied-Obeys : (max : Option ℕ) (n c : ℕ) → Tallied max n c → Obeys max n
Tallied-Obeys none n c h = tt
Tallied-Obeys (some max) n c h = omega (arith, h)

eligible_not_exhausted :
    (dir : InjectDirection) (method : Option Text) (rule : Rule) (count : ℕ)
    → is_eligible dir method rule count ≡ true
    → is_exhausted rule.max_triggers count ≡ false
unfolding is_eligible
eligible_not_exhausted dir method rule count h = ground arith

-- The tally is the same for the labels of these rules.
AreTallied-same :
    (n m : Text → ℕ) (rules : List Rule) (counts : List ℕ)
    → All (λ q. m q.label ≡ n q.label) rules
    → AreTallied n rules counts
    → AreTallied m rules counts
AreTallied-same n m [] [] e h = tt
AreTallied-same n m [] (c ∷ cs) e h = h
AreTallied-same n m (r ∷ rs) [] e h = h
AreTallied-same n m (r ∷ rs) (c ∷ cs) e h = (
  Tallied-same r.max_triggers (n r.label) (m r.label) c e.0 h.0,
  AreTallied-same n m rs cs e.1 h.1,
)

unmoved :
    (n : Text → ℕ) (label : Text) (rules : List Rule)
    → All (λ q. text_eq label q.label ≡ false) rules
    → All (λ q. (n q.label + (if text_eq label q.label then 1 else 0)) ≡ n q.label) rules
unmoved n label [] h = tt
unmoved n label (q ∷ qs) h = (rw h.0 (omega arith), unmoved n label qs h.1)

text_eq_sym_false : (a b : Text) → text_eq a b ≡ false → text_eq b a ≡ false
text_eq_sym_false a b h = ground (arith, h, text_eq_iff a b, text_eq_iff b a)

module _ (dir : InjectDirection) (method : Option Text) where
  -- A hit cites none of the labels that no rule has.
  loop-elsewhere :
      (label : Text) (rules : List Rule) (counts : List ℕ) (rng : XorShift64Star)
      → All (λ q. text_eq label q.label ≡ false) rules
      → cites label (decide_loop dir method rules counts rng).0 ≡ 0
  unfolding decide_loop
  loop-elsewhere label [] counts rng h = refl
  loop-elsewhere label (r ∷ rs) [] rng h = refl
  loop-elsewhere label (r ∷ rs) (c ∷ cs) rng h = elim (Bool-cases (is_eligible dir method r c)) [
    | inr e ↦ rw (e, decide_loop) (loop-elsewhere label rs cs rng h.1)
    | inl e ↦ elim (Bool-cases (roll r rng).0) [
      | inr f ↦ rw (e, decide_loop) (rw f (loop-elsewhere label rs cs (roll r rng).1 h.1))
      | inl f ↦ rw (e, decide_loop) (rw f (rw (text_eq_sym_false label r.label h.0) refl))
    ]
  ]

  -- A rule that is passed over is tallied as before.
  passed :
      (n : Text → ℕ) (r : Rule) (rs : List Rule) (c : ℕ) (cs : List ℕ) (rng : XorShift64Star)
      → All (λ q. text_eq r.label q.label ≡ false) rs
      → Tallied r.max_triggers (n r.label) c
      → Tallied r.max_triggers (n r.label + cites r.label (decide_loop dir method rs cs rng).0) c
  passed n r rs c cs rng d h =
      Tallied-same r.max_triggers (n r.label) _ c
        (omega (arith, loop-elsewhere r.label rs cs rng d)) h

  loop-AreTallied :
      (n : Text → ℕ) (rules : List Rule) (counts : List ℕ) (rng : XorShift64Star)
      → AreDistinct rules
      → All (λ r. Fits r.max_triggers) rules
      → AreTallied n rules counts
      → let o = decide_loop dir method rules counts rng in
        AreTallied (λ label. n label + cites label o.0) rules o.1
  unfolding decide_loop
  loop-AreTallied n [] [] rng d fits h = tt
  loop-AreTallied n [] (c ∷ cs) rng d fits h = h
  loop-AreTallied n (r ∷ rs) [] rng d fits h = h
  loop-AreTallied n (r ∷ rs) (c ∷ cs) rng d fits h =
      elim (Bool-cases (is_eligible dir method r c)) [
        | inr e ↦
            rw (e, decide_loop)
              (passed n r rs c cs rng d.0 h.0, loop-AreTallied n rs cs rng d.1 fits.1 h.1)
        | inl e ↦ elim (Bool-cases (roll r rng).0) [
          | inr f ↦
              rw (e, decide_loop)
                (rw f (
                  passed n r rs c cs (roll r rng).1 d.0 h.0,
                  loop-AreTallied n rs cs (roll r rng).1 d.1 fits.1 h.1,
                ))
          | inl f ↦
              rw (e, decide_loop)
                (rw f (
                  Tallied-next r.max_triggers (n r.label) _ c fits.0
                      (eligible_not_exhausted dir method r c e) (rw (text_eq_refl r.label) refl)
                      h.0,
                  AreTallied-same n _ rs cs (unmoved n r.label rs d.0) h.1,
                ))
        ]
      ]

tallied_at_most :
    (n : Text → ℕ) (rules : List Rule) (counts : List ℕ)
    → AreTallied n rules counts
    → All (λ r. Obeys r.max_triggers (n r.label)) rules
tallied_at_most n [] cs h = tt
tallied_at_most n (r ∷ rs) [] h = absurd h
tallied_at_most n (r ∷ rs) (c ∷ cs) h =
    (Tallied-Obeys r.max_triggers (n r.label) c h.0, tallied_at_most n rs cs h.1)

new-AreTallied : (rules : List Rule) → AreTallied (λ _. 0) rules (replicate (length rules) 0)
new-AreTallied [] = tt
new-AreTallied (r ∷ rs) = (zero_tallied r.max_triggers, new-AreTallied rs)
  where
    zero_tallied : (max : Option ℕ) → Tallied max 0 0
    zero_tallied none = tt
    zero_tallied (some m) = omega arith

same_tally :
    (n m : Text → ℕ) (rules : List Rule)
    → ((label : Text) → m label ≡ n label)
    → All (λ q. m q.label ≡ n q.label) rules
same_tally n m [] e = tt
same_tally n m (r ∷ rs) e = (e r.label, same_tally n m rs e)

Obeys-same :
    (n m : Text → ℕ) (rules : List Rule)
    → ((label : Text) → m label ≡ n label)
    → All (λ r. Obeys r.max_triggers (n r.label)) rules
    → All (λ r. Obeys r.max_triggers (m r.label)) rules
Obeys-same n m [] e h = tt
Obeys-same n m (r ∷ rs) e h =
    (subst (Obeys r.max_triggers) (sym (e r.label)) h.0, Obeys-same n m rs e h.1)

firings-Obeys :
    (n : Text → ℕ) (inj : Injector) (frames : List (InjectDirection × Option Text))
    → AreDistinct inj.rules
    → All (λ r. Fits r.max_triggers) inj.rules
    → AreTallied n inj.rules inj.counts
    → All (λ r. Obeys r.max_triggers (n r.label + firings r.label inj frames)) inj.rules
unfolding decide
firings-Obeys n inj [] d fits h =
    tallied_at_most _ inj.rules inj.counts
      (AreTallied-same n _ inj.rules inj.counts (same_tally n _ inj.rules (λ label. omega arith)) h)
firings-Obeys n inj ((dir, method) ∷ frames) d fits h =
    Obeys-same
      (λ label.
        n label
        + cites label (decide inj dir method).0
        + firings label (decide inj dir method).1 frames)
      _ inj.rules (λ label. omega arith)
      (firings-Obeys (λ label. n label + cites label (decide inj dir method).0)
        (decide inj dir method).1 frames d fits
        (loop-AreTallied dir method n inj.rules inj.counts inj.rng d fits h))

-- From a new injector, whose rules carry different labels and limits of 64 bits, and whatever frames
-- come by: each rule with a limit fires on at most that many of them.
pub firings_at_most :
    (entropy : ℕ) (cfg : InjectConfig) (frames : List (InjectDirection × Option Text))
    → AreDistinct cfg.rules
    → All (λ r. Fits r.max_triggers) cfg.rules
    → All (λ r. Obeys r.max_triggers (firings r.label (new entropy cfg) frames)) cfg.rules
unfolding new
firings_at_most entropy cfg frames d fits =
    Obeys-same (λ label. 0 + firings label (new entropy cfg) frames) _ cfg.rules
      (λ label. omega arith)
      (firings-Obeys (λ _. 0) (new entropy cfg) frames d fits (new-AreTallied cfg.rules))
