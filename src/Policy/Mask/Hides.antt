-- ===== src/Policy/Mask/Hides.antt =====
-- What `mask` keeps, and what it hides.
use mcpglass.Base.{
  ℕ, [], ◌∷◌, ◌++◌, ◌+◌, ◌-◌, ◌≡◌, ◌≤◌, ◌<◌, refl, arith, leb, length, take, drop, replicate, min,
  length-append, length-replicate, zero, suc, Bool-cases, inl, inr, subst, append_assoc, false, ap,
  ◌∙◌, ◌⊎◌, leb_iff,
}
use mcpglass.Base.Text.{Text}
use mcpglass.Policy.Mask.{mask, star}

length-take : (n : ℕ) (s : Text) → length (take n s) ≡ min n (length s)
length-take zero s = omega arith
length-take (suc n) [] = omega arith
length-take (suc n) (x ∷ s) = omega (arith, length-take n s)

length-drop : (n : ℕ) (s : Text) → length (drop n s) ≡ length s - n
length-drop zero s = omega arith
length-drop (suc n) [] = omega arith
length-drop (suc n) (x ∷ s) = omega (arith, length-drop n s)

take-append : (a b : Text) → take (length a) (a ++ b) ≡ a
take-append [] b = refl
take-append (x ∷ a) b = rw (take-append a b)

drop-append : (a b : Text) → drop (length a) (a ++ b) ≡ b
drop-append [] b = refl
drop-append (x ∷ a) b = drop-append a b

-- The preview is as long as the secret up to 38 characters, and 38 long beyond that.
pub length-mask : (s : Text) → length (mask s) ≡ min (length s) 38
unfolding mask
length-mask s = elim (Bool-cases (leb (length s) 6)) [
  | inl e ↦ rw (e, mask) (ground (arith, length-replicate (length s) star))
  | inr e ↦
      rw (e, mask)
        (ground (
          arith,
          length-append (take 4 s)
              (replicate (min (length s - 6) 32) star ++ drop (length s - 2) s),
          length-append (replicate (min (length s - 6) 32) star) (drop (length s - 2) s),
          length-replicate (min (length s - 6) 32) star,
          length-take 4 s,
          length-drop (length s - 2) s,
        ))
]

-- A secret longer than six characters is shown by its first four and its last two characters, with
-- at most 32 stars between: of the characters between them only the number shows, and that only up
-- to 32.
mask_long :
    (head middle tail : Text)
    → length head ≡ 4
    → length tail ≡ 2
    → 0 < length middle
    → mask (head ++ (middle ++ tail)) ≡ head ++ (replicate (min (length middle) 32) star ++ tail)
unfolding mask
mask_long head middle tail h t m =
    let s = head ++ (middle ++ tail) in
    let long : length s ≡ length middle + 6 =
      omega (arith, length-append head (middle ++ tail), length-append middle tail) in
    let first : take 4 s ≡ head =
      subst (λ n. take n s ≡ head) h (take-append head (middle ++ tail)) in
    let inner : length (head ++ middle) ≡ length s - 2 = omega (arith, length-append head middle) in
    let last : drop (length s - 2) s ≡ tail =
      subst (λ n. drop n s ≡ tail) inner
        (subst (λ x. drop (length (head ++ middle)) x ≡ tail) (append_assoc head middle tail)
          (drop-append (head ++ middle) tail)) in
    let count : length s - 6 ≡ length middle = omega (arith, long) in
    let big : leb (length s) 6 ≡ false = ground (arith, long) in
    rw (big, mask) (rw (first, last, count))

-- A secret of at most six characters is shown by its length alone.
pub mask_short : (s : Text) → length s ≤ 6 → mask s ≡ replicate (length s) star
unfolding mask
mask_short s h = ground arith

-- The second text is what may be shown of the first: stars alone for a short text, and of a longer
-- one the first four and the last two characters, with stars between.
abbrev pub Hidden : Text → Text → Type 0
Hidden m shown =
    ((length m ≤ 6) × (shown ≡ replicate (length m) star))
    ⊎ ((head : Text) × (middle : Text) × (tail : Text) × (m ≡ head ++ (middle ++ tail))
        × (length head ≡ 4)
        × (length tail ≡ 2)
        × (shown ≡ head ++ (replicate (min (length middle) 32) star ++ tail)))

take-drop : (n : ℕ) (s : Text) → s ≡ take n s ++ drop n s
take-drop zero s = refl
take-drop (suc n) [] = refl
take-drop (suc n) (x ∷ s) = ap (λ t. x ∷ t) (take-drop n s)

pub mask-Hidden : (m : Text) → Hidden m (mask m)
unfolding mask
mask-Hidden m = elim (Bool-cases (leb (length m) 6)) [
  | inl e ↦ rw (e, mask) (inl ((leb_iff (length m) 6).0 e, refl))
  | inr e ↦
      let s = drop 4 m in
      let head = take 4 m in
      let middle = take (length m - 6) s in
      let tail = drop (length m - 6) s in
      let long : 6 < length m = ground (arith, e, leb_iff (length m) 6) in
      let split : m ≡ head ++ (middle ++ tail) =
        take-drop 4 m ∙ ap (λ t. head ++ t) (take-drop (length m - 6) s) in
      let four : length head ≡ 4 = omega (arith, long, length-take 4 m) in
      let two : length tail ≡ 2 =
        omega (arith, long, length-drop (length m - 6) s, length-drop 4 m) in
      let some_middle : 0 < length middle =
        omega (arith, long, length-take (length m - 6) s, length-drop 4 m) in
      inr (
        head,
        middle,
        tail,
        split,
        four,
        two,
        ap mask split ∙ mask_long head middle tail four two some_middle,
      )
]
