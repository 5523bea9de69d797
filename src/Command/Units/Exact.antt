-- ===== src/Command/Units/Exact.antt =====
-- A size is read exactly, or refused.
use mcpglass.Base.{
  ℕ, ◌+◌, ◌-◌, ◌*◌, ◌^◌, ◌≤◌, ◌<◌, arith, none, some, [], ◌∷◌, ◌++◌, ◌≡◌, ◌≢◌, refl, ap, ◌∙◌, Bool,
  true, false, Bool-cases, inl, inr, ◌==◌, ltb, if◌then◌else◌, All,
}
use mcpglass.Base.Text.{Text}
use mcpglass.Command.Units.{
  empty, not_a_number, overflow, Parsed, ok, failed, is_ascii_digit, scan, parse_unsigned, last,
  but_last, checked_mul, size_unit, trim_start, keep_char, trim_end, trim, size_of, size_by,
  parse_size_bytes,
}

abbrev pub AreDigits : Text → Type 0
AreDigits = All (λ (c : ℕ). is_ascii_digit c ≡ true)

-- The number that digits write in base ten, behind `n`, whatever its size.
abbrev pub number : ℕ → Text → ℕ
number n [] = n
number n (c ∷ s) = number (n * 10 + (c - b'0')) s

number_grows : (n : ℕ) (s : Text) → n ≤ number n s
number_grows n [] = omega arith
number_grows n (c ∷ s) = omega (arith, number_grows (n * 10 + (c - b'0')) s)

scan_lem :
    (limit n : ℕ) (s : Text)
    → AreDigits s
    → n < limit
    → scan limit n s ≡ (if ltb (number n s) limit then some (number n s) else none)
unfolding scan
scan_lem limit n [] h below = ground arith
scan_lem limit n (c ∷ s) (h, hs) below =
    let m = n * 10 + (c - b'0') in
    elim (Bool-cases (ltb m limit)) [
      | inl e ↦ rw (h, e, scan) (scan_lem limit m s hs (ground arith))
      | inr e ↦ rw (h, e, scan) (too_large m (number_grows m s) e)
    ]
  where
    too_large :
        (m : ℕ)
        → m ≤ number m s
        → ltb m limit ≡ false
        → none ≡ (if ltb (number m s) limit then some (number m s) else none)
    too_large m le e = ground arith

parse_unsigned-digits :
    (limit : ℕ) (s : Text)
    → AreDigits s
    → s ≢ []
    → 0 < limit
    → parse_unsigned limit s ≡ (if ltb (number 0 s) limit then some (number 0 s) else none)
unfolding parse_unsigned is_ascii_digit
parse_unsigned-digits limit [] h some_digit below = absurd (some_digit refl)
parse_unsigned-digits limit (c ∷ s) h some_digit below =
    let no_sign : (c == b'+') ≡ false = ground (arith, h.0) in
    rw (no_sign, parse_unsigned) (scan_lem limit 0 (c ∷ s) h below)

last-append : (s : Text) (c : ℕ) → last (s ++ c ∷ []) ≡ some c
unfolding last
last-append [] c = refl
last-append (x ∷ []) c = refl
last-append (x ∷ y ∷ s) c = last-append (y ∷ s) c

but_last-append : (s : Text) (c : ℕ) → but_last (s ++ c ∷ []) ≡ s
unfolding but_last
but_last-append [] c = refl
but_last-append (x ∷ []) c = refl
but_last-append (x ∷ y ∷ s) c = ap (λ t. x ∷ t) (but_last-append (y ∷ s) c)

module _ (is_whitespace : ℕ → Bool) where
  abbrev pub IsTight : Text → Type 0
  IsTight = All (λ c. is_whitespace c ≡ false)

  trim_end-IsTight : (s : Text) → IsTight s → trim_end is_whitespace s ≡ s
  unfolding trim_end keep_char
  trim_end-IsTight [] h = refl
  trim_end-IsTight (c ∷ []) h = rw (h.0, keep_char) refl
  trim_end-IsTight (c ∷ d ∷ s) h = ap (keep_char is_whitespace c) (trim_end-IsTight (d ∷ s) h.1)

  trim-IsTight : (s : Text) → IsTight s → trim is_whitespace s ≡ s
  unfolding trim trim_start
  trim-IsTight [] h = trim_end-IsTight [] h
  trim-IsTight (c ∷ s) h = rw (h.0, trim_start) (trim_end-IsTight (c ∷ s) h)

  IsTight-front : (s : Text) (c : ℕ) → IsTight (s ++ c ∷ []) → IsTight s
  IsTight-front [] c h = tt
  IsTight-front (x ∷ s) c h = (h.0, IsTight-front s c h.1)

  size_of-digits :
      (digits : Text) (mult : ℕ)
      → AreDigits digits
      → digits ≢ []
      → IsTight digits
      → size_of is_whitespace digits mult ≡ (
          if ltb (number 0 digits) (2 ^ 64)
          then if ltb (number 0 digits * mult) (2 ^ 64)
            then ok (number 0 digits * mult)
            else failed overflow
          else failed (not_a_number digits))
  unfolding size_of checked_mul
  size_of-digits digits mult h some_digit tight =
      let parsed =
        ap (parse_unsigned (2 ^ 64)) (trim-IsTight digits tight)
        ∙ parse_unsigned-digits (2 ^ 64) digits h some_digit (omega arith) in
      elim (Bool-cases (ltb (number 0 digits) (2 ^ 64))) [
        | inl e ↦ rw (parsed, size_of) (rw e refl)
        | inr e ↦ rw (parsed, size_of) (rw e refl)
      ]

  -- Digits and a unit, without white space: if the number that they write does not fit 64 bits, the
  -- text is refused as no number; otherwise, if its product with the unit does not fit, as an
  -- overflow; otherwise the size is exactly that product.
  pub parse_size_bytes-exact :
      (digits : Text) (unit mult : ℕ)
      → AreDigits digits
      → digits ≢ []
      → size_unit unit ≡ some mult
      → IsTight (digits ++ unit ∷ [])
      → parse_size_bytes is_whitespace (digits ++ unit ∷ []) ≡ (
          if ltb (number 0 digits) (2 ^ 64)
          then if ltb (number 0 digits * mult) (2 ^ 64)
            then ok (number 0 digits * mult)
            else failed overflow
          else failed (not_a_number digits))
  unfolding parse_size_bytes size_by
  parse_size_bytes-exact digits unit mult h some_digit is_unit tight =
      let s = digits ++ unit ∷ [] in
      ap
        (λ t. elim (last t) as (λ _. Parsed) [
          | none ↦ failed empty
          | some c ↦ size_by is_whitespace t c (size_unit c)
        ])
        (trim-IsTight s tight)
      ∙ ap
          (λ o. elim o as (λ _. Parsed) [
            | none ↦ failed empty
            | some c ↦ size_by is_whitespace s c (size_unit c)
          ])
          (last-append digits unit)
      ∙ ap (size_by is_whitespace s unit) is_unit
      ∙ ap (λ t. size_of is_whitespace t mult) (but_last-append digits unit)
      ∙ size_of-digits digits mult h some_digit (IsTight-front digits unit tight)
