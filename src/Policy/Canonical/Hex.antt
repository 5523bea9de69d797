-- ===== src/Policy/Canonical/Hex.antt =====
-- `to_hex` loses nothing.
use mcpglass.Base.{
  ℕ, zero, suc, ◌+◌, ◌*◌, ◌-◌, ◌/◌, ◌%◌, ◌<◌, [], ◌∷◌, ◌≡◌, refl, Bool, true, ◌&&◌, arith, leb,
  ◌==◌, if◌then◌else◌, All, ==_iff,
}
use mcpglass.Base.Text.{Text, Bytes}
use mcpglass.Policy.Canonical.{hex_digit, to_hex}

-- The value of a hexadecimal digit, and of a text of them.
pub hex_value : ℕ → ℕ
hex_value c = if leb c b'9' then c - b'0' else c - 87

pub of_hex : Text → Bytes
of_hex [] = []
of_hex (h ∷ []) = []
of_hex (h ∷ l ∷ rest) = (hex_value h * 16 + hex_value l) ∷ of_hex rest

every_below : ℕ → (ℕ → Bool) → Bool
every_below zero p = true
every_below (suc n) p = p n && every_below n p

every_below_sound : (n : ℕ) (p : ℕ → Bool) (x : ℕ) → every_below n p ≡ true → x < n → p x ≡ true
unfolding every_below
every_below_sound zero p x h lt = absurd (omega arith)
every_below_sound (suc n) p x h lt = ground (arith, every_below_sound n p x)

digit_table : every_below 16 (λ n. hex_value (hex_digit n) == n) ≡ true
unfolding every_below hex_value hex_digit
digit_table = refl

hex_value-hex_digit : (n : ℕ) → n < 16 → hex_value (hex_digit n) ≡ n
hex_value-hex_digit n h = (==_iff _ n).0 (every_below_sound 16 _ n digit_table h)

-- Every byte string is read back from its hexadecimal text.
pub of_hex-to_hex : (bs : Bytes) → All (λ b. b < 256) bs → of_hex (to_hex bs) ≡ bs
unfolding of_hex to_hex
of_hex-to_hex [] h = refl
of_hex-to_hex (b ∷ bs) h =
    let high = hex_value-hex_digit (b / 16) (omega (arith, h.0)) in
    let low = hex_value-hex_digit (b % 16) (omega arith) in
    let whole : (b / 16) * 16 + b % 16 ≡ b = omega arith in
    rw (high, low, whole, of_hex-to_hex bs h.1)
