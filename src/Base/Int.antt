-- ===== src/Base/Int.antt =====
-- `i64` values: the integers that the program compares. `negsuc n` is -(n + 1).
use Prim.Native.Nat.{ℕ, ◌+◌, ◌-◌, ◌<◌}
use mathlib.Core.Path.{◌≡◌, refl, ap, sym}
use mathlib.Core.Logic.{◌↔◌, ◌⊎◌, inl, inr}
use mathlib.Core.Bool.{Bool, true, false}
use native.Mathlib.Omega.{arith}
use mcpglass.Base.Test.{ltb, leb, ◌==◌, ltb_iff, ==_iff, Bool-cases, if◌then◌else◌}

pub data ℤ : Type 0 where
  pos : ℕ → ℤ
  negsuc : ℕ → ℤ

-- `a < b` and `a <= b`.
unfoldable pub int_lt : ℤ → ℤ → Bool
int_lt (pos a) (pos b) = ltb a b
int_lt (pos a) (negsuc b) = false
int_lt (negsuc a) (pos b) = true
int_lt (negsuc a) (negsuc b) = ltb b a

unfoldable pub int_le : ℤ → ℤ → Bool
int_le (pos a) (pos b) = leb a b
int_le (pos a) (negsuc b) = false
int_le (negsuc a) (pos b) = true
int_le (negsuc a) (negsuc b) = leb b a

-- The difference of two numbers, and `a - n`.
unfoldable pub sub_ℕ : ℕ → ℕ → ℤ
sub_ℕ a b = if leb b a then pos (a - b) else negsuc (b - a - 1)

unfoldable pub sub : ℤ → ℕ → ℤ
sub (pos a) n = sub_ℕ a n
sub (negsuc a) n = negsuc (a + n)

-- The order of the integers.
abbrev pub Less : ℤ → ℤ → Type 0
Less (pos a) (pos b) = a < b
Less (pos a) (negsuc b) = ⊥
Less (negsuc a) (pos b) = Unit
Less (negsuc a) (negsuc b) = b < a

ℕ-cases : (a b : ℕ) → (a < b) ⊎ (a ≡ b) ⊎ (b < a)
ℕ-cases a b = elim (Bool-cases (ltb a b)) [
  | inl h ↦ inl ((ltb_iff a b).0 h)
  | inr h ↦ elim (Bool-cases (a == b)) [
    | inl e ↦ inr (inl ((==_iff a b).0 e))
    | inr n ↦ inr (inr (ground (arith, h, n, ltb_iff a b, ==_iff a b)))
  ]
]

pub int_lt_iff : (a b : ℤ) → (int_lt a b ≡ true) ↔ Less a b
unfolding int_lt
int_lt_iff (pos a) (pos b) = ltb_iff a b
int_lt_iff (pos a) (negsuc b) = (λ h. cc, λ h. absurd h)
int_lt_iff (negsuc a) (pos b) = (λ h. tt, λ h. refl)
int_lt_iff (negsuc a) (negsuc b) = ltb_iff b a

pub Less-trans : (a b c : ℤ) → Less a b → Less b c → Less a c
Less-trans (pos a) (pos b) (pos c) h k = omega (arith, h, k)
Less-trans (pos a) (pos b) (negsuc c) h k = absurd k
Less-trans (pos a) (negsuc b) c h k = absurd h
Less-trans (negsuc a) (pos b) (pos c) h k = tt
Less-trans (negsuc a) (pos b) (negsuc c) h k = absurd k
Less-trans (negsuc a) (negsuc b) (pos c) h k = tt
Less-trans (negsuc a) (negsuc b) (negsuc c) h k = omega (arith, h, k)

-- Of two integers one is less, or they are the same.
pub Less-cases : (a b : ℤ) → Less a b ⊎ (a ≡ b) ⊎ Less b a
Less-cases (pos a) (pos b) = elim (ℕ-cases a b) [
  | inl h ↦ inl h
  | inr (inl e) ↦ inr (inl (ap pos e))
  | inr (inr h) ↦ inr (inr h)
]
Less-cases (pos a) (negsuc b) = inr (inr tt)
Less-cases (negsuc a) (pos b) = inl tt
Less-cases (negsuc a) (negsuc b) = elim (ℕ-cases b a) [
  | inl h ↦ inl h
  | inr (inl e) ↦ inr (inl (ap negsuc (sym e)))
  | inr (inr h) ↦ inr (inr h)
]

pub Less-irrefl : (a : ℤ) → Less a a → ⊥
Less-irrefl (pos a) h = omega (arith, h)
Less-irrefl (negsuc a) h = omega (arith, h)
