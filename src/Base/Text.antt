-- ===== src/Base/Text.antt =====
-- Rust's `String` and `&str` as lists of code points, and byte strings as lists of numbers.
use Prim.Native.Char.{code}
use Prim.Native.String.{String}
use Prim.Native.Nat.{ℕ}
use mathlib.Core.Path.{◌≡◌, refl}
use mathlib.Core.Logic.{◌↔◌}
use mathlib.Core.Bool.{Bool, true, false, ◌&&◌}
use mathlib.Core.List.{List, [], ◌∷◌, ◌++◌}
use native.Mathlib.Omega.{arith}
use mcpglass.Base.Test.{◌==◌}

abbrev pub Bytes : Type 0
Bytes = List ℕ

abbrev pub Text : Type 0
Text = List ℕ

-- The code points of a literal.
abbrev pub codes : String → Text
codes String.[] = []
codes (String.◌∷◌ c s) = code c ∷ codes s

-- `==` on texts and on byte slices.
unfoldable pub text_eq : Text → Text → Bool
text_eq [] [] = true
text_eq (x ∷ xs) (y ∷ ys) = x == y && text_eq xs ys
text_eq _ _ = false

pub text_eq_iff : (a b : Text) → (text_eq a b ≡ true) ↔ (a ≡ b)
unfolding text_eq
text_eq_iff (x ∷ a) (y ∷ b) = ground (arith, text_eq_iff a b)
text_eq_iff _ _ = ground arith

pub text_eq_refl : (a : Text) → text_eq a a ≡ true
text_eq_refl a = (text_eq_iff a a).1 refl

-- `str::starts_with`.
unfoldable pub starts_with : Text → Text → Bool
starts_with [] name = true
starts_with (x ∷ xs) [] = false
starts_with (x ∷ xs) (y ∷ ys) = x == y && starts_with xs ys

-- A prefix test holds exactly where the text is the prefix and something behind it.
pub starts_with_iff : (p s : Text) → (starts_with p s ≡ true) ↔ ((rest : Text) × (s ≡ p ++ rest))
unfolding starts_with
starts_with_iff p s = (to p s, from p s)
  where
    to : (p s : Text) → starts_with p s ≡ true → (rest : Text) × (s ≡ p ++ rest)
    to [] s h = (s, refl)
    to (x ∷ p) [] h = cc
    to (x ∷ p) (y ∷ s) h = let (rest, e) = to p s (ground arith) in (rest, ground arith)

    from : (p s : Text) → (rest : Text) × (s ≡ p ++ rest) → starts_with p s ≡ true
    from [] s h = refl
    from (x ∷ p) [] (rest, e) = cc
    from (x ∷ p) (y ∷ s) (rest, e) = ground (arith, from p s (rest, ground arith))
