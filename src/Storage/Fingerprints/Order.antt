-- ===== src/Storage/Fingerprints/Order.antt =====
-- The order of the rows of a history.
use mcpglass.Base.{
  ◌≤◌, ◌≡◌, ◌⊎◌, inl, inr, sym, ◌∙◌, Bool-cases, Bool, true, false, not, ◌&&◌, ◌||◌, leb, leb_iff,
  subst, arith,
}
use mcpglass.Base.Int.{ℤ, Less, int_lt, int_lt_iff, Less-trans, Less-cases, Less-irrefl}
use mcpglass.Storage.Fingerprints.{Row, seen, precedes}

-- Seen earlier, or at the same time and with no larger id.
abbrev pub NotAfter : Row → Row → Type 0
NotAfter q r = Less (seen q) (seen r) ⊎ ((seen q ≡ seen r) × (q.id ≤ r.id))

pub NotAfter-trans : (a b c : Row) → NotAfter a b → NotAfter b c → NotAfter a c
NotAfter-trans a b c (inl h) (inl k) = inl (Less-trans (seen a) (seen b) (seen c) h k)
NotAfter-trans a b c (inl h) (inr (e, i)) = inl (subst (λ x. Less (seen a) x) e h)
NotAfter-trans a b c (inr (e, i)) (inl k) = inl (subst (λ x. Less x (seen c)) (sym e) k)
NotAfter-trans a b c (inr (e, i)) (inr (f, j)) = inr (e ∙ f, omega (arith, i, j))

lt_false : (a b : ℤ) → (Less a b → ⊥) → int_lt a b ≡ false
lt_false a b n = elim (Bool-cases (int_lt a b)) [
  | inl y ↦ absurd (n ((int_lt_iff a b).0 y))
  | inr f ↦ f
]

lt_false_same : (a b : ℤ) → a ≡ b → int_lt a b ≡ false
lt_false_same a b e = lt_false a b (λ h. Less-irrefl b (subst (λ x. Less x b) e h))

lt_false_back : (a b : ℤ) → Less b a → int_lt a b ≡ false
lt_false_back a b h = lt_false a b (λ k. Less-irrefl a (Less-trans a b a k h))

pub precedes-NotAfter : (a b : Row) → precedes a b ≡ true → NotAfter b a
unfolding precedes
precedes-NotAfter a b h = elim (Less-cases (seen b) (seen a)) [
  | inl less ↦ inl less
  | inr (inl e) ↦ inr (e, ground (arith, h, lt_false_same (seen b) (seen a) e, leb_iff b.id a.id))
  | inr (inr more) ↦ absurd (
      wrong (int_lt (seen b) (seen a)) (int_lt (seen a) (seen b))
        (lt_false_back (seen b) (seen a) more) ((int_lt_iff (seen a) (seen b)).1 more) h)
]
  where
    wrong : (x y : Bool) → x ≡ false → y ≡ true → (x || (not y && leb b.id a.id)) ≡ true → ⊥
    wrong x y f t p = ground (arith, f, t, p)

pub precedes-not : (a b : Row) → precedes a b ≡ false → NotAfter a b
unfolding precedes
precedes-not a b h = elim (Less-cases (seen a) (seen b)) [
  | inl less ↦ inl less
  | inr (inl e) ↦ inr (e, ground (arith, h, lt_false_same (seen a) (seen b) e, leb_iff b.id a.id))
  | inr (inr more) ↦ absurd (wrong _ _ ((int_lt_iff (seen b) (seen a)).1 more) h)
]
  where
    wrong : (x y : Bool) → x ≡ true → (x || y) ≡ false → ⊥
    wrong x y t p = ground (arith, t, p)
