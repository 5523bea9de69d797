-- ===== src/Inject/Float.antt =====
-- The `f64` values that a probability can be, and the comparisons that the injector makes. Every
-- finite `f64` is a whole multiple of 2^-1074, so a finite value is that multiple, exactly.
use mcpglass.Base.{ℕ, ◌*◌, ◌^◌, Bool, true, false, leb, ltb}
use mcpglass.Base.Int.{ℤ, pos, negsuc}

pub data F64 : Type 0 where
  finite : ℤ → F64
  infinity neg_infinity nan : F64

-- How many times 2^-1074 makes 1.0, and how many times it makes 2^-53.
unfoldable pub one_units : ℕ
one_units = 2 ^ 1074

unfoldable pub draw_units : ℕ
draw_units = 2 ^ 1021

abbrev pub one : F64
one = finite (pos one_units)

-- `(0.0..=1.0).contains(&p)`: both comparisons fail for a NaN.
unfoldable pub in_unit_range : F64 → Bool
in_unit_range (finite (pos m)) = leb m one_units
in_unit_range _ = false

-- `p < 1.0`.
unfoldable pub lt_one : F64 → Bool
lt_one (finite (pos m)) = ltb m one_units
lt_one (finite (negsuc m)) = true
lt_one neg_infinity = true
lt_one infinity = false
lt_one nan = false

-- `k as f64 / (1u64 << 53) as f64`, which is exact for `k` below 2^53.
unfoldable pub unit_fraction : ℕ → F64
unit_fraction k = finite (pos (k * draw_units))

-- `a >= b`.
unfoldable pub ge : F64 → F64 → Bool
ge nan b = false
ge a nan = false
ge a neg_infinity = true
ge infinity b = true
ge a infinity = false
ge neg_infinity b = false
ge (finite (pos a)) (finite (pos b)) = leb b a
ge (finite (pos a)) (finite (negsuc b)) = true
ge (finite (negsuc a)) (finite (pos b)) = false
ge (finite (negsuc a)) (finite (negsuc b)) = leb a b
