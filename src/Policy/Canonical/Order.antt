-- ===== src/Policy/Canonical/Order.antt =====
-- `text_le` is a total order.
use mcpglass.Base.{[], ◌∷◌, ◌≡◌, refl, true, false, arith}
use mcpglass.Base.Text.{Text}
use mcpglass.Policy.Canonical.{text_le}

pub text_le_antisymm : (a b : Text) → text_le a b ≡ true → text_le b a ≡ true → a ≡ b
unfolding text_le
text_le_antisymm [] [] h k = refl
text_le_antisymm [] (y ∷ b) h k = cc
text_le_antisymm (x ∷ a) [] h k = cc
text_le_antisymm (x ∷ a) (y ∷ b) h k = ground (arith, text_le_antisymm a b)

pub text_le_total : (a b : Text) → text_le a b ≡ false → text_le b a ≡ true
unfolding text_le
text_le_total [] b h = cc
text_le_total (x ∷ a) [] h = refl
text_le_total (x ∷ a) (y ∷ b) h = ground (arith, text_le_total a b)

pub text_le_trans : (a b c : Text) → text_le a b ≡ true → text_le b c ≡ true → text_le a c ≡ true
unfolding text_le
text_le_trans [] b c h k = refl
text_le_trans (x ∷ a) [] c h k = cc
text_le_trans (x ∷ a) (y ∷ b) [] h k = cc
text_le_trans (x ∷ a) (y ∷ b) (z ∷ c) h k = ground (arith, text_le_trans a b c)
