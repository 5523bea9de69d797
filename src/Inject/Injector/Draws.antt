-- ===== src/Inject/Injector/Draws.antt =====
-- The random numbers of the injector, and what a probability decides.
use mcpglass.Base.{
  ◌+◌, leb, leb_iff, ltb_iff, ap, length, ℕ, ◌*◌, ◌/◌, ◌%◌, ◌^◌, ◌<◌, List, [], ◌∷◌, ◌++◌, ◌≡◌,
  refl, true, false, Option, none, some, arith, All, Bool-cases, inl, inr, not,
}
use mcpglass.Base.Int.{pos}
use mcpglass.Base.Text.{Text}
use mcpglass.Inject.Float.{finite, one_units, draw_units, lt_one, in_unit_range, unit_fraction, ge}
use mcpglass.Inject.Rng.{XorShift64Star, next_f64, next_u64, scramble, word}
use mcpglass.Inject.Config.{InjectDirection, Rule}
use mcpglass.Inject.Injector.{is_eligible, roll, hit_of, decide_loop}

below_one : (k : ℕ) → k < 2 ^ 53 → k * draw_units < one_units
unfolding draw_units one_units
below_one k h = omega arith

-- A draw lies in [0, 1), whatever the state of the generator.
pub next_f64_range :
    (r : XorShift64Star) → (in_unit_range (next_f64 r).0 ≡ true) × (lt_one (next_f64 r).0 ≡ true)
unfolding next_f64 next_u64 unit_fraction in_unit_range lt_one
next_f64_range r =
    let k = scramble r.state * 0x2545F4914F6CDD1D % word / 2 ^ 11 in
    let h = below_one k (omega arith) in
    (
      (leb_iff (k * draw_units) one_units).1 (omega (arith, h)),
      (ltb_iff (k * draw_units) one_units).1 h,
    )

-- A rule of probability zero never fires, and one that is certain always does, with no draw.
roll_zero :
    (rule : Rule) (rng : XorShift64Star)
    → rule.probability ≡ finite (pos 0)
    → (roll rule rng).0 ≡ false
unfolding roll lt_one one_units next_f64 unit_fraction ge
roll_zero rule rng h = rw (h, roll) ((leb_zero ((next_u64 rng).0 / 2 ^ 11 * draw_units)))
  where
    leb_zero : (n : ℕ) → not (leb 0 n) ≡ false
    leb_zero n = ground arith

roll_certain :
    (rule : Rule) (rng : XorShift64Star)
    → lt_one rule.probability ≡ false
    → roll rule rng ≡ (true, rng)
unfolding roll
roll_certain rule rng h = rw h

-- No rule of the list is eligible for the frame.
abbrev pub NoneEligible : InjectDirection → Option Text → List Rule → List ℕ → Type 0
NoneEligible dir method [] counts = Unit
NoneEligible dir method (r ∷ rs) [] = ⊥
NoneEligible dir method (r ∷ rs) (c ∷ cs) =
    (is_eligible dir method r c ≡ false) × NoneEligible dir method rs cs

-- The first eligible rule of the file, if it is certain, decides the frame: its fault is the one
-- that is injected, no matter what stands behind it, and no random number is drawn.
pub decide_loop_first :
    (dir : InjectDirection) (method : Option Text) (before : List Rule) (rule : Rule)
    (after : List Rule) (counts_before : List ℕ) (count : ℕ) (counts_after : List ℕ)
    (rng : XorShift64Star)
    → NoneEligible dir method before counts_before
    → length counts_before ≡ length before
    → is_eligible dir method rule count ≡ true
    → lt_one rule.probability ≡ false
    → decide_loop dir method (before ++ rule ∷ after) (counts_before ++ count ∷ counts_after) rng
      ≡ (some (hit_of rule), counts_before ++ ((count + 1) % word) ∷ counts_after, rng)
unfolding decide_loop
decide_loop_first dir method [] rule after [] count counts_after rng none_before same e certain =
    rw (e, decide_loop) (rw (roll_certain rule rng certain) (rw (roll_certain rule rng certain)))
decide_loop_first dir method [] rule after (b ∷ bs) count counts_after rng none_before same e
      certain =
    absurd (omega (arith, same))
decide_loop_first dir method (r ∷ rs) rule after [] count counts_after rng none_before same e
      certain =
    elim none_before [ ]
decide_loop_first dir method (r ∷ rs) rule after (b ∷ bs) count counts_after rng none_before same e
      certain =
    rw (none_before.0, decide_loop)
      (rw (
        decide_loop_first dir method rs rule after bs count counts_after rng none_before.1
          (omega (arith, same)) e certain))

-- No rule draws.
abbrev pub AllCertain : List Rule → Type 0
AllCertain = All (λ r. lt_one r.probability ≡ false)

-- A configuration of certain rules alone never touches the generator, whether a rule fires or not.
pub decide_loop_certain :
    (dir : InjectDirection) (method : Option Text) (rules : List Rule) (counts : List ℕ)
    (rng : XorShift64Star)
    → AllCertain rules
    → (decide_loop dir method rules counts rng).2 ≡ rng
unfolding decide_loop
decide_loop_certain dir method [] counts rng h = refl
decide_loop_certain dir method (r ∷ rs) [] rng h = refl
decide_loop_certain dir method (r ∷ rs) (c ∷ cs) rng h =
    elim (Bool-cases (is_eligible dir method r c)) [
      | inr e ↦ rw (e, decide_loop) (decide_loop_certain dir method rs cs rng h.1)
      | inl e ↦ rw (e, decide_loop) (rw (roll_certain r rng h.0) (rw (roll_certain r rng h.0)))
    ]

-- A rule of probability zero never fires: with such rules alone every frame passes, and every
-- counter stays as it is.
pub decide_loop_zero :
    (dir : InjectDirection) (method : Option Text) (rules : List Rule) (counts : List ℕ)
    (rng : XorShift64Star)
    → All (λ r. r.probability ≡ finite (pos 0)) rules
    → length counts ≡ length rules
    → ((decide_loop dir method rules counts rng).0 ≡ none)
      × ((decide_loop dir method rules counts rng).1 ≡ counts)
unfolding decide_loop
decide_loop_zero dir method [] counts rng h same = (refl, refl)
decide_loop_zero dir method (r ∷ rs) [] rng h same = absurd (omega (arith, same))
decide_loop_zero dir method (r ∷ rs) (c ∷ cs) rng h same =
    elim (Bool-cases (is_eligible dir method r c)) [
      | inr e ↦
          let ih = decide_loop_zero dir method rs cs rng h.1 (omega (arith, same)) in
          rw (e, decide_loop) (ih.0, ap (λ x. c ∷ x) ih.1)
      | inl e ↦
          let ih = decide_loop_zero dir method rs cs (roll r rng).1 h.1 (omega (arith, same)) in
          rw (e, decide_loop) (rw (roll_zero r rng h.0) (ih.0, ap (λ x. c ∷ x) ih.1))
    ]
