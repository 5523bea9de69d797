-- ===== src/Clients/Table/Laws.antt =====
-- Reading what was put into a map or into the table.
use mcpglass.Base.{
  some, List, [], ◌∷◌, ◌≡◌, ◌≢◌, refl, sym, ap, ◌∙◌, false, Bool-cases, inl, inr, if◌then◌else◌,
}
use mcpglass.Base.Text.{Text, text_eq, text_eq_iff, text_eq_refl}
use mcpglass.Json.{Value, Fields, end, field, lookup}
use mcpglass.Clients.Table.{GatewayConfig, find_route, get_upstream, put_route, insert}

pub other_key : (a b : Text) → a ≢ b → text_eq a b ≡ false
other_key a b h = elim (Bool-cases (text_eq a b)) [
  | inl e ↦ absurd (h ((text_eq_iff a b).0 e))
  | inr e ↦ e
]

module _ (k : Text) where
  pub lookup-insert : (v : Value) (fs : Fields) → lookup k (insert k v fs) ≡ some v
  unfolding lookup insert
  lookup-insert v end = rw (text_eq_refl k) refl
  lookup-insert v (field j w fs) = elim (Bool-cases (text_eq j k)) [
    | inl e ↦ rw (e, insert, lookup) (rw (e, lookup) refl)
    | inr e ↦ rw (e, insert) (rw (e, lookup) (lookup-insert v fs))
  ]

  pub lookup-insert_other :
      (i : Text) (v : Value) (fs : Fields) → i ≢ k → lookup i (insert k v fs) ≡ lookup i fs
  unfolding lookup insert
  lookup-insert_other i v end h = rw (other_key k i (λ e. h (sym e))) refl
  lookup-insert_other i v (field j w fs) h = elim (Bool-cases (text_eq j k)) [
    | inl e ↦
        let other = other_key j i (λ same. h (sym same ∙ (text_eq_iff j k).0 e)) in
        rw (e, insert) (rw (other, lookup) refl)
    | inr e ↦
        rw (e, insert) (ap (λ o. if text_eq j i then some w else o) (lookup-insert_other i v fs h))
  ]

  pub insert-insert : (v w : Value) (fs : Fields) → insert k v (insert k w fs) ≡ insert k v fs
  unfolding insert
  insert-insert v w end = rw (text_eq_refl k) refl
  insert-insert v w (field j x fs) = elim (Bool-cases (text_eq j k)) [
    | inl e ↦ rw (e, insert) (rw (e, insert) refl)
    | inr e ↦ rw (e, insert) (rw (e, insert) (ap (field j x) (insert-insert v w fs)))
  ]

  pub insert_same : (v : Value) (fs : Fields) → lookup k fs ≡ some v → insert k v fs ≡ fs
  unfolding insert lookup
  insert_same v end h = cc
  insert_same v (field j x fs) h = elim (Bool-cases (text_eq j k)) [
    | inl e ↦ rw (e, insert) (ap (λ y. field j y fs) (sym (some_injective (rw (e, lookup) at h))))
    | inr e ↦ rw (e, insert) (ap (field j x) (insert_same v fs (rw (e, lookup) at h)))
  ]
    where
      some_injective : {a b : Value} → some a ≡ some b → a ≡ b
      some_injective h = cc

  -- Two keys of which the one is there are put in any order.
  pub insert_swap :
      (i : Text) (v w u : Value) (fs : Fields)
      → i ≢ k
      → lookup k fs ≡ some u
      → insert k v (insert i w fs) ≡ insert i w (insert k v fs)
  unfolding insert lookup
  insert_swap i v w u end h there = cc
  insert_swap i v w u (field j x fs) h there = elim (Bool-cases (text_eq j k)) [
    | inl e ↦
        let other = other_key j i (λ same. h (sym same ∙ (text_eq_iff j k).0 e)) in
        rw (e, other, insert) (rw (e, insert) refl)
    | inr e ↦ elim (Bool-cases (text_eq j i)) [
      | inl f ↦ rw (e, f, insert) (rw (e, insert) refl)
      | inr f ↦
          rw (e, f, insert)
            (rw (e, insert) (ap (field j x) (insert_swap i v w u fs h (rw (e, lookup) at there))))
    ]
  ]

pub find_route-put_route :
    (k url : Text) (xs : List (Text × Text)) → find_route k (put_route k url xs) ≡ some url
unfolding find_route put_route
find_route-put_route k url [] = rw (text_eq_refl k) refl
find_route-put_route k url ((route, old) ∷ rest) = elim (Bool-cases (text_eq route k)) [
  | inl e ↦ rw (e, put_route) (rw (e, find_route) refl)
  | inr e ↦ rw (e, put_route) (rw (e, find_route) (find_route-put_route k url rest))
]

pub find_route-put_route_other :
    (i k url : Text) (xs : List (Text × Text))
    → i ≢ k
    → find_route i (put_route k url xs) ≡ find_route i xs
unfolding find_route put_route
find_route-put_route_other i k url [] h = rw (other_key k i (λ e. h (sym e))) refl
find_route-put_route_other i k url ((route, old) ∷ rest) h = elim (Bool-cases (text_eq route k)) [
  | inl e ↦
      let other = other_key route i (λ same. h (sym same ∙ (text_eq_iff route k).0 e)) in
      rw (e, put_route) (rw (other, find_route) refl)
  | inr e ↦
      rw (e, put_route)
        (ap (λ o. if text_eq route i then some old else o)
          (find_route-put_route_other i k url rest h))
]

-- Each route of the one table has its URL in the other too.
abbrev pub Extends : GatewayConfig → GatewayConfig → Type 0
Extends g h = (k u : Text) → get_upstream g k ≡ some u → get_upstream h k ≡ some u

pub Extends-refl : (g : GatewayConfig) → Extends g g
Extends-refl g k u h = h

pub Extends-trans : (f g h : GatewayConfig) → Extends f g → Extends g h → Extends f h
Extends-trans f g h p q k u e = q k u (p k u e)
