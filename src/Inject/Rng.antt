-- ===== src/Inject/Rng.antt =====
-- `XorShift64Star`, over 64-bit words.
use Prim.Native.Nat.{bit_xor}
use mcpglass.Base.{ℕ, ◌*◌, ◌/◌, ◌%◌, ◌^◌, ◌==◌, if◌then◌else◌}
use mcpglass.Inject.Float.{F64, unit_fraction}

pub record XorShift64Star : Type 0 where
  pub state : ℕ

abbrev pub word : ℕ
word = 2 ^ 64

-- xorshift needs a state that is not zero.
unfoldable pub new : ℕ → XorShift64Star
new seed = record { state = if seed == 0 then 0x9E3779B97F4A7C15 else seed }

-- `x ^= x >> 12; x ^= x << 25; x ^= x >> 27`.
unfoldable pub scramble : ℕ → ℕ
scramble s =
    let a = bit_xor s (s / 2 ^ 12) in
    let b = bit_xor a (a * 2 ^ 25 % word) in bit_xor b (b / 2 ^ 27)

unfoldable pub next_u64 : XorShift64Star → ℕ × XorShift64Star
next_u64 r = let x = scramble r.state in (x * 0x2545F4914F6CDD1D % word, record { state = x })

-- The top 53 bits of a draw.
unfoldable pub next_f64 : XorShift64Star → F64 × XorShift64Star
next_f64 r = let drawn = next_u64 r in (unit_fraction (drawn.0 / 2 ^ 11), drawn.1)
