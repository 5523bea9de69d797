-- ===== src/Command/Units.antt =====
-- Durations and sizes with a unit: crates/cli/src/prune.rs.
use mcpglass.Base.{
  ℕ, ◌+◌, ◌-◌, ◌*◌, ◌^◌, Option, none, some, List, [], ◌∷◌, Bool, true, false, ◌&&◌, ◌||◌, ◌==◌,
  ltb, leb, if◌then◌else◌,
}
use mcpglass.Base.Text.{Text}
pub mod Exact

pub data UnitError : Type 0 where
  empty : UnitError
  unknown_unit : ℕ → UnitError
  not_a_number : Text → UnitError
  negative : UnitError
  overflow : UnitError

pub data Parsed : Type 0 where
  ok : ℕ → Parsed
  failed : UnitError → Parsed

unfoldable pub is_ascii_digit : ℕ → Bool
is_ascii_digit c = leb b'0' c && leb c b'9'

-- The digits of a number below a limit, behind `n`.
unfoldable pub scan : ℕ → ℕ → Text → Option ℕ
scan limit n [] = some n
scan limit n (c ∷ s) =
    let m = n * 10 + (c - b'0') in
    let rest = scan limit m s in if is_ascii_digit c && ltb m limit then rest else none

unfoldable pub scan_some : ℕ → Text → Option ℕ
scan_some limit [] = none
scan_some limit (c ∷ s) = scan limit 0 (c ∷ s)

-- `str::parse::<u64>`, which takes a leading `+`.
unfoldable pub parse_unsigned : ℕ → Text → Option ℕ
parse_unsigned limit [] = none
parse_unsigned limit (c ∷ s) = if c == b'+' then scan_some limit s else scan limit 0 (c ∷ s)

-- `str::parse::<i64>` as a sign and a magnitude.
unfoldable pub with_sign : Bool → Option ℕ → Option (Bool × ℕ)
with_sign minus none = none
with_sign minus (some n) = some (minus, n)

unfoldable pub parse_signed : Text → Option (Bool × ℕ)
parse_signed [] = none
parse_signed (c ∷ s) =
    if c == b'-'
    then with_sign true (scan_some (2 ^ 63 + 1) s)
    else with_sign false (parse_unsigned (2 ^ 63) (c ∷ s))

unfoldable pub last : Text → Option ℕ
last [] = none
last (c ∷ []) = some c
last (c ∷ d ∷ s) = last (d ∷ s)

unfoldable pub but_last : Text → Text
but_last [] = []
but_last (c ∷ []) = []
but_last (c ∷ d ∷ s) = c ∷ but_last (d ∷ s)

-- `checked_mul`.
unfoldable pub checked_mul : ℕ → ℕ → ℕ → Parsed
checked_mul limit n m = if ltb (n * m) limit then ok (n * m) else failed overflow

unfoldable pub size_unit : ℕ → Option ℕ
size_unit c =
    if c == b'k' || c == b'K'
    then some 1024
    else if c == b'm' || c == b'M'
    then some (1024 * 1024)
    else if c == b'g' || c == b'G'
    then some (1024 * 1024 * 1024)
    else if c == b'b' || c == b'B'
    then some 1
    else none

unfoldable pub duration_unit : ℕ → Option ℕ
duration_unit c =
    if c == b'd' || c == b'D'
    then some (24 * 60 * 60 * 1000)
    else if c == b'h' || c == b'H'
    then some (60 * 60 * 1000)
    else if c == b'm' || c == b'M'
    then some (60 * 1000)
    else if c == b's' || c == b'S'
    then some 1000
    else none

-- The white space of Unicode, for `str::trim`.
module _ (is_whitespace : ℕ → Bool) where
  unfoldable pub trim_start : Text → Text
  trim_start [] = []
  trim_start (c ∷ s) = if is_whitespace c then trim_start s else c ∷ s

  unfoldable pub keep_char : ℕ → Text → Text
  keep_char c [] = if is_whitespace c then [] else c ∷ []
  keep_char c (d ∷ s) = c ∷ d ∷ s

  unfoldable pub trim_end : Text → Text
  trim_end [] = []
  trim_end (c ∷ s) = keep_char c (trim_end s)

  unfoldable pub trim : Text → Text
  trim s = trim_end (trim_start s)

  unfoldable pub size_of : Text → ℕ → Parsed
  size_of num_str mult = elim (parse_unsigned (2 ^ 64) (trim num_str)) [
    | none ↦ failed (not_a_number num_str)
    | some n ↦ checked_mul (2 ^ 64) n mult
  ]

  unfoldable pub size_by : Text → ℕ → Option ℕ → Parsed
  size_by s c (some mult) = size_of (but_last s) mult
  size_by s c none = if is_ascii_digit c then size_of s 1 else failed (unknown_unit c)

  unfoldable pub parse_size_bytes : Text → Parsed
  parse_size_bytes s = elim (last (trim s)) [
    | none ↦ failed empty
    | some c ↦ size_by (trim s) c (size_unit c)
  ]

  unfoldable pub checked_duration : Text → ℕ → Option (Bool × ℕ) → Parsed
  checked_duration num_str unit_ms none = failed (not_a_number num_str)
  checked_duration num_str unit_ms (some (minus, n)) =
      if minus && ltb 0 n then failed negative else checked_mul (2 ^ 63) n unit_ms

  unfoldable pub duration_of : Text → ℕ → Parsed
  duration_of num_str unit_ms = checked_duration num_str unit_ms (parse_signed (trim num_str))

  unfoldable pub duration_by : Text → ℕ → Option ℕ → Parsed
  duration_by s c (some unit_ms) = duration_of (but_last s) unit_ms
  duration_by s c none = if is_ascii_digit c then duration_of s 1000 else failed (unknown_unit c)

  unfoldable pub parse_duration_ms : Text → Parsed
  parse_duration_ms s = elim (last (trim s)) [
    | none ↦ failed empty
    | some c ↦ duration_by (trim s) c (duration_unit c)
  ]
