-- ===== src/Policy/Secrets/Previews.antt =====
-- What the hits of a request show.
use mcpglass.Base.{
  ℕ, suc, some, Option-cases, inl, inr, List, [], ◌∷◌, ◌++◌, ◌≡◌, ◌⊎◌, refl, subst, sym, All, Any,
  if◌then◌else◌,
}
use mcpglass.Base.Text.{Text}
use mcpglass.Json.{
  Value, null, bool, number, string, array, object, Items, nil, cons, Fields, end, field, is_object,
}
use mcpglass.Policy.Libs.{Regex, Libs}
use mcpglass.Policy.Mask.Hides.{Hidden, mask-Hidden}
use mcpglass.Policy.Secrets.{
  SecretHit, hits_of, scan_builtin, scan_custom, scan_secrets, builtin_patterns, collect_strings,
  collect_items, collect_fields, scan_all, arguments, scan_request_arguments,
}
use mcpglass.Policy.Secrets.Reach.{
  Holds, here, in_array, in_object, HoldsItem, this_item, later_item, HoldsField, this_field,
  later_field,
}

-- The text is among the texts.
abbrev pub Among : Text → List Text → Type 0
Among s = Any (λ x. x ≡ s)

Among-append : (s : Text) (xs ys : List Text) → Among s (xs ++ ys) → Among s xs ⊎ Among s ys
Among-append s [] ys h = inr h
Among-append s (x ∷ xs) ys (inl e) = inl (inl e)
Among-append s (x ∷ xs) ys (inr h) = elim (Among-append s xs ys h) [
  | inl a ↦ inl (inr a)
  | inr b ↦ inr b
]

mutual
  unfolding collect_strings

  Among-Holds : (s : Text) (v : Value) → Among s (collect_strings v) → Holds s v
  Among-Holds s null h = absurd h
  Among-Holds s (bool b) h = absurd h
  Among-Holds s (number n) h = absurd h
  Among-Holds s (string t) (inl e) = subst (λ x. Holds s (string x)) (sym e) here
  Among-Holds s (string t) (inr h) = absurd h
  Among-Holds s (array xs) h = in_array (Among-HoldsItem s xs h)
  Among-Holds s (object fs) h = in_object (Among-HoldsField s fs h)

  Among-HoldsItem : (s : Text) (xs : Items) → Among s (collect_items xs) → HoldsItem s xs
  Among-HoldsItem s nil h = absurd h
  Among-HoldsItem s (cons v vs) h = elim (Among-append s (collect_strings v) (collect_items vs) h) [
    | inl a ↦ this_item (Among-Holds s v a)
    | inr b ↦ later_item (Among-HoldsItem s vs b)
  ]

  Among-HoldsField : (s : Text) (fs : Fields) → Among s (collect_fields fs) → HoldsField s fs
  Among-HoldsField s end h = absurd h
  Among-HoldsField s (field k v fs) h =
      elim (Among-append s (collect_strings v) (collect_fields fs) h) [
        | inl a ↦ this_field (Among-Holds s v a)
        | inr b ↦ later_field (Among-HoldsField s fs b)
      ]

-- The preview hides a text of this kind.
abbrev Shows : (Text → Type 0) → SecretHit → Type 0
Shows P h = (m : Text) × P m × Hidden m h.matched_preview

-- A built-in pattern or a custom one matches this part of the text.
abbrev pub IsMatch : Libs → List Regex → Text → Text → Type 0
IsMatch libs custom text m =
    Any (λ (p : Text × Regex). Among m (p.1.find_iter text)) (builtin_patterns libs)
    ⊎ Any (λ (re : Regex). Among m (re.find_iter text)) custom

module _ (P : Text → Type 0) where
  Shows-append :
      (xs ys : List SecretHit) → All (Shows P) xs → All (Shows P) ys → All (Shows P) (xs ++ ys)
  Shows-append [] ys h k = k
  Shows-append (x ∷ xs) ys h k = (h.0, Shows-append xs ys h.1 k)

  hits_of-Shows :
      (name : Text) (ms : List Text)
      → ((m : Text) → Among m ms → P m)
      → All (Shows P) (hits_of name ms)
  unfolding hits_of
  hits_of-Shows name [] f = tt
  hits_of-Shows name (m ∷ ms) f =
      ((m, f m (inl refl), mask-Hidden m), hits_of-Shows name ms (λ x a. f x (inr a)))

  builtin-Shows :
      (ps : List (Text × Regex)) (text : Text)
      → ((m : Text) → Any (λ (p : Text × Regex). Among m (p.1.find_iter text)) ps → P m)
      → All (Shows P) (scan_builtin ps text)
  unfolding scan_builtin
  builtin-Shows [] text f = tt
  builtin-Shows ((name, re) ∷ ps) text f =
      Shows-append (hits_of name (re.find_iter text)) (scan_builtin ps text)
        (hits_of-Shows name (re.find_iter text) (λ m a. f m (inl a)))
        (builtin-Shows ps text (λ m a. f m (inr a)))

  custom-Shows :
      (decimal : ℕ → Text) (i : ℕ) (res : List Regex) (text : Text)
      → ((m : Text) → Any (λ (re : Regex). Among m (re.find_iter text)) res → P m)
      → All (Shows P) (scan_custom decimal i res text)
  unfolding scan_custom
  custom-Shows decimal i [] text f = tt
  custom-Shows decimal i (re ∷ res) text f =
      Shows-append (hits_of _ (re.find_iter text)) (scan_custom decimal (suc i) res text)
        (hits_of-Shows _ (re.find_iter text) (λ m a. f m (inl a)))
        (custom-Shows decimal (suc i) res text (λ m a. f m (inr a)))

  scan_all-Shows :
      (libs : Libs) (custom : List Regex) (ss : List Text)
      → ((s m : Text) → Among s ss → IsMatch libs custom s m → P m)
      → All (Shows P) (scan_all libs custom ss)
  unfolding scan_all scan_secrets
  scan_all-Shows libs custom [] f = tt
  scan_all-Shows libs custom (s ∷ ss) f =
      Shows-append (scan_secrets libs s custom) (scan_all libs custom ss)
        (Shows-append (scan_builtin (builtin_patterns libs) s) (scan_custom libs.decimal 0 custom s)
          (builtin-Shows (builtin_patterns libs) s (λ m a. f s m (inl refl) (inl a)))
          (custom-Shows libs.decimal 0 custom s (λ m a. f s m (inl refl) (inr a))))
        (scan_all-Shows libs custom ss (λ t m a. f t m (inr a)))

-- A match in a string value below the arguments of the request.
abbrev pub IsSecretOf : Libs → List Regex → Value → Text → Type 0
IsSecretOf libs custom request m =
    (fs : Fields) × (s : Text) × (arguments request ≡ some (object fs))
    × HoldsField s fs
    × IsMatch libs custom s m

-- The preview hides such a match.
abbrev pub IsMasked : Libs → List Regex → Value → SecretHit → Type 0
IsMasked libs custom request h =
    (m : Text) × IsSecretOf libs custom request m × Hidden m h.matched_preview

-- Every hit of a request hides a match of a built-in or a custom pattern in a string value below
-- the arguments: of a match of up to six characters its preview shows as many stars, and of a longer
-- one the first four and the last two characters, with a star between for each of the others, up to
-- 32 stars.
pub scan_request_arguments-IsMasked :
    (libs : Libs) (request : Value) (custom : List Regex)
    → All (IsMasked libs custom request) (scan_request_arguments libs request custom)
unfolding scan_request_arguments is_object collect_strings
scan_request_arguments-IsMasked libs request custom = elim (Option-cases (arguments request)) [
  | inl e ↦ rw (e, scan_request_arguments) tt
  | inr (v, e) ↦ rw (e, scan_request_arguments) (of_value v e)
]
  where
    of_value :
        (v : Value)
        → arguments request ≡ some v
        → All
            (IsMasked libs custom request)
            (if is_object v then scan_all libs custom (collect_strings v) else [])
    of_value null e = tt
    of_value (bool b) e = tt
    of_value (number n) e = tt
    of_value (string s) e = tt
    of_value (array xs) e = tt
    of_value (object fs) e =
        scan_all-Shows (IsSecretOf libs custom request) libs custom (collect_fields fs)
          (λ s m a match'. (fs, s, e, Among-HoldsField s fs a, match'))
