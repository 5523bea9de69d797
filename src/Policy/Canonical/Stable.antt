-- ===== src/Policy/Canonical/Stable.antt =====
-- The canonical text does not depend on the order of the keys of an object.
use mcpglass.Base.{List, [], ◌∷◌, ◌≡◌, ◌≢◌, refl, ◌∙◌, ap, arith, ◌++◌}
use mcpglass.Base.Text.{Text, codes}
use mcpglass.Json.{Serde, Value, array, object, Items, nil, cons, Fields, end, field}
use mcpglass.Policy.Canonical.{
  Entry, insert_key, sort_keys, write_entries, write_canonical, write_items, write_more,
  write_fields,
}
use mcpglass.Policy.Canonical.Order.{text_le_antisymm, text_le_total, text_le_trans}

-- Two insertions of different keys can change places.
insert_swap :
    (e f : Entry) (es : List Entry)
    → e.0 ≢ f.0
    → insert_key e (insert_key f es) ≡ insert_key f (insert_key e es)
unfolding insert_key
insert_swap e f [] ne = ground (arith, text_le_antisymm e.0 f.0, text_le_total e.0 f.0)
insert_swap e f (g ∷ gs) ne = ground (
  arith,
  text_le_antisymm e.0 f.0,
  text_le_total e.0 f.0,
  text_le_trans e.0 f.0 g.0,
  text_le_trans f.0 e.0 g.0,
  text_le_total e.0 g.0,
  text_le_total f.0 g.0,
  text_le_trans e.0 g.0 f.0,
  text_le_trans f.0 g.0 e.0,
  insert_swap e f gs ne,
)

-- Equal up to the order of the keys, at every depth.
mutual
  pub data Same : Value → Value → Type 0 where
    same : (v : Value) → Same v v
    chain : {u v w : Value} → Same u v → Same v w → Same u w
    in_array : {xs ys : Items} → SameItems xs ys → Same (array xs) (array ys)
    in_object : {fs gs : Fields} → SameFields fs gs → Same (object fs) (object gs)

  pub data SameItems : Items → Items → Type 0 where
    no_items : SameItems nil nil
    each :
        {v w : Value} {vs ws : Items}
        → Same v w
        → SameItems vs ws
        → SameItems (cons v vs) (cons w ws)

  pub data SameFields : Fields → Fields → Type 0 where
    no_fields : SameFields end end
    keep :
        {k : Text} {v w : Value} {fs gs : Fields}
        → Same v w
        → SameFields fs gs
        → SameFields (field k v fs) (field k w gs)
    swap :
        {k j : Text} {v w : Value} {fs : Fields}
        → k ≢ j
        → SameFields (field k v (field j w fs)) (field j w (field k v fs))
    steps : {fs gs hs : Fields} → SameFields fs gs → SameFields gs hs → SameFields fs hs

sort_keep :
    (k : Text) {a b : Text} (es fs : List Entry)
    → a ≡ b
    → sort_keys es ≡ sort_keys fs
    → sort_keys ((k, a) ∷ es) ≡ sort_keys ((k, b) ∷ fs)
unfolding sort_keys
sort_keep k es fs p q = cc

module _ (serde : Serde) where
  mutual
    unfolding write_canonical sort_keys

    canonical-Same : {v w : Value} → Same v w → write_canonical serde v ≡ write_canonical serde w
    canonical-Same (same v) = refl
    canonical-Same (chain s t) = canonical-Same s ∙ canonical-Same t
    canonical-Same (in_array s) = ap (λ x. codes "[" ++ (x ++ codes "]")) (items-Same s)
    canonical-Same (in_object s) =
        ap (λ x. codes "{" ++ (write_entries serde x ++ codes "}")) (fields-Same s)

    items-Same : {xs ys : Items} → SameItems xs ys → write_items serde xs ≡ write_items serde ys
    items-Same no_items = refl
    items-Same (each s t) = cc (canonical-Same s, more-Same t)

    more-Same : {xs ys : Items} → SameItems xs ys → write_more serde xs ≡ write_more serde ys
    more-Same no_items = refl
    more-Same (each s t) = cc (canonical-Same s, more-Same t)

    fields-Same :
        {fs gs : Fields}
        → SameFields fs gs
        → sort_keys (write_fields serde fs) ≡ sort_keys (write_fields serde gs)
    fields-Same no_fields = refl
    fields-Same (keep {k} {v} {w} s t) = sort_keep k _ _ (canonical-Same s) (fields-Same t)
    fields-Same (swap {fs = fs} ne) = insert_swap _ _ (sort_keys (write_fields serde fs)) ne
    fields-Same (steps s t) = fields-Same s ∙ fields-Same t

  -- Two values that differ in the order of keys alone, at whatever depth, have one canonical text.
  pub write_canonical-Same :
      (v w : Value) → Same v w → write_canonical serde v ≡ write_canonical serde w
  write_canonical-Same v w s = canonical-Same s
