-- ===== src/Policy/Secrets/Reach.antt =====
-- The secret scan of a request sees every string of the arguments, and shows only previews.
use mcpglass.Base.{List, [], ◌∷◌, ◌++◌, ◌≡◌, refl, sym, some, append_assoc}
use mcpglass.Base.Text.{Text}
use mcpglass.Json.{Value, string, array, object, Items, cons, Fields, field, is_object}
use mcpglass.Policy.Libs.{Regex, Libs}
use mcpglass.Policy.Secrets.{
  scan_secrets, collect_strings, collect_items, collect_fields, scan_all, arguments,
  scan_request_arguments,
}

-- The string is a value somewhere below.
mutual
  pub data Holds (s : Text) : Value → Type 0 where
    here : Holds s (string s)
    in_array : {xs : Items} → HoldsItem s xs → Holds s (array xs)
    in_object : {fs : Fields} → HoldsField s fs → Holds s (object fs)

  pub data HoldsItem (s : Text) : Items → Type 0 where
    this_item : {v : Value} {vs : Items} → Holds s v → HoldsItem s (cons v vs)
    later_item : {v : Value} {vs : Items} → HoldsItem s vs → HoldsItem s (cons v vs)

  pub data HoldsField (s : Text) : Fields → Type 0 where
    this_field : {k : Text} {v : Value} {fs : Fields} → Holds s v → HoldsField s (field k v fs)
    later_field :
        {k : Text} {v : Value} {fs : Fields} → HoldsField s fs → HoldsField s (field k v fs)

-- A run of consecutive elements.
abbrev pub Within {ℓ} : {A : Type ℓ} → List A → List A → Type ℓ
Within {A = A} xs ys = (before : List A) × (after : List A) × (ys ≡ before ++ (xs ++ after))

module _ {ℓ} {A : Type ℓ} where
  Within-left : (xs ys zs : List A) → Within xs ys → Within xs (ys ++ zs)
  Within-left xs ys zs (b, a, e) = (b, a ++ zs, rw e (simp append_assoc))

  Within-right : (xs ys zs : List A) → Within xs zs → Within xs (ys ++ zs)
  Within-right xs ys zs (b, a, e) = (ys ++ b, a, rw e (simp append_assoc))

mutual
  unfolding collect_strings

  collect-Holds : {s : Text} {v : Value} → Holds s v → Within (s ∷ []) (collect_strings v)
  collect-Holds here = ([], [], refl)
  collect-Holds (in_array h) = collect_items-Holds h
  collect-Holds (in_object h) = collect_fields-Holds h

  collect_items-Holds :
      {s : Text} {xs : Items} → HoldsItem s xs → Within (s ∷ []) (collect_items xs)
  collect_items-Holds {s} (this_item {v} {vs} h) =
      Within-left (s ∷ []) (collect_strings v) (collect_items vs) (collect-Holds h)
  collect_items-Holds {s} (later_item {v} {vs} h) =
      Within-right (s ∷ []) (collect_strings v) (collect_items vs) (collect_items-Holds h)

  collect_fields-Holds :
      {s : Text} {fs : Fields} → HoldsField s fs → Within (s ∷ []) (collect_fields fs)
  collect_fields-Holds {s} (this_field {k} {v} {fs} h) =
      Within-left (s ∷ []) (collect_strings v) (collect_fields fs) (collect-Holds h)
  collect_fields-Holds {s} (later_field {k} {v} {fs} h) =
      Within-right (s ∷ []) (collect_strings v) (collect_fields fs) (collect_fields-Holds h)

module _ (libs : Libs) (custom : List Regex) where
  scan_all-append :
      (xs ys : List Text)
      → scan_all libs custom (xs ++ ys) ≡ scan_all libs custom xs ++ scan_all libs custom ys
  unfolding scan_all
  scan_all-append [] ys = refl
  scan_all-append (x ∷ xs) ys =
      rw (scan_all-append xs ys) (sym (append_assoc (scan_secrets libs x custom) _ _))

  -- Where the arguments of a request are an object, every string value anywhere below them is
  -- scanned: what the scan of that one string finds stands among the hits of the request, in one
  -- run.
  pub scan_request_arguments-Holds :
      (request : Value) (fs : Fields) {s : Text}
      → arguments request ≡ some (object fs)
      → HoldsField s fs
      → Within (scan_secrets libs s custom) (scan_request_arguments libs request custom)
  unfolding scan_request_arguments is_object scan_all collect_strings
  scan_request_arguments-Holds request fs {s} e h =
      let (b, a, found) = collect_fields-Holds h in
      (
        scan_all libs custom b,
        scan_all libs custom a,
        rw (e, scan_request_arguments) (rw found (scan_all-append b (s ∷ a))),
      )
