-- ===== src/Clients/Document/Undo.antt =====
-- Traversals of a document that a pure traversal takes back.
use mcpglass.Base.{some, ◌≡◌, refl, ap, ◌∙◌, Bool-cases, inl, inr, if◌then◌else◌}
use mcpglass.Base.Text.{Text, text_eq}
use mcpglass.Json.{Value, null, bool, number, string, array, object, Fields, end, field, lookup}
use mcpglass.Clients.Table.{GatewayConfig}
use mcpglass.Clients.Table.Laws.{Extends, Extends-refl, Extends-trans}
use mcpglass.Clients.Document.{at_object, at_key, each_field}

abbrev pub map_object : (Fields → Fields) → Value → Value
map_object f (object fs) = object (f fs)
map_object f v = v

abbrev pub map_key : Text → (Value → Value) → Fields → Fields
map_key k f end = end
map_key k f (field j v fs) =
    let rest = map_key k f fs in if text_eq j k then field j (f v) fs else field j v rest

abbrev pub map_fields : (Value → Value) → Fields → Fields
map_fields f end = end
map_fields f (field k v fs) = field k (f v) (map_fields f fs)

abbrev pub AllFields : (Text → Value → Type 0) → Fields → Type 0
AllFields P end = Unit
AllFields P (field k v fs) = P k v × AllFields P fs

pub AllFields-map :
    (P Q : Text → Value → Type 0)
    → ((k : Text) (v : Value) → P k v → Q k v)
    → (fs : Fields) → AllFields P fs
    → AllFields Q fs
AllFields-map P Q h end all = tt
AllFields-map P Q h (field k v fs) (p, ps) = (h k v p, AllFields-map P Q h fs ps)

-- A traversal whose changes to the value are those of a pure one.
module _ {S : Type 0} where
  pub at_object-pure :
      (f : Fields → S → Fields × S) (d : Fields → Fields)
      → ((fs : Fields) (s : S) → (f fs s).0 ≡ d fs)
      → (v : Value) (s : S) → (at_object f v s).0 ≡ map_object d v
  unfolding at_object
  at_object-pure f d h (object fs) s = ap object (h fs s)
  at_object-pure f d h null s = refl
  at_object-pure f d h (bool b) s = refl
  at_object-pure f d h (number n) s = refl
  at_object-pure f d h (string t) s = refl
  at_object-pure f d h (array xs) s = refl

  pub at_key-pure :
      (k : Text) (f : Value → S → Value × S) (d : Value → Value)
      → ((v : Value) (s : S) → (f v s).0 ≡ d v)
      → (fs : Fields) (s : S) → (at_key k f fs s).0 ≡ map_key k d fs
  unfolding at_key
  at_key-pure k f d h end s = refl
  at_key-pure k f d h (field j v fs) s = elim (Bool-cases (text_eq j k)) [
    | inl e ↦ rw (e, at_key) (ap (λ w. field j w fs) (h v s))
    | inr e ↦ rw (e, at_key) (ap (field j v) (at_key-pure k f d h fs s))
  ]

  pub each_field-pure :
      (f : Text → Value → S → Value × S) (d : Value → Value)
      → ((k : Text) (v : Value) (s : S) → (f k v s).0 ≡ d v)
      → (fs : Fields) (s : S) → (each_field f fs s).0 ≡ map_fields d fs
  unfolding each_field
  each_field-pure f d h end s = refl
  each_field-pure f d h (field k v fs) s =
      ap (λ w. field k w (each_field f fs (f k v s).1).0) (h k v s)
      ∙ ap (field k (d v)) (each_field-pure f d h fs (f k v s).1)

module _ {S : Type 0} (table : S → GatewayConfig) where
  -- The table only grows, and with it, or with one that has grown further, the changes are undone.
  abbrev pub Undone : {X : Type 0} → (X → S → X × S) → (GatewayConfig → X → X) → X → Type 0
  Undone f d x =
      (s : S)
      → Extends (table s) (table (f x s).1)
        × ((final : GatewayConfig) → Extends (table (f x s).1) final → d final (f x s).0 ≡ x)

  -- It is enough to undo the object, where there is one.
  pub at_object-Undone :
      (f : Fields → S → Fields × S) (d : GatewayConfig → Fields → Fields) (P : Value → Type 0)
      → ((fs : Fields) → P (object fs) → Undone f d fs)
      → (v : Value) → P v
      → Undone (at_object f) (λ g. map_object (d g)) v
  unfolding at_object
  at_object-Undone f d P h (object fs) p s =
      ((h fs p s).0, λ final ext. ap object ((h fs p s).1 final ext))
  at_object-Undone f d P h null p s = (Extends-refl (table s), λ final ext. refl)
  at_object-Undone f d P h (bool b) p s = (Extends-refl (table s), λ final ext. refl)
  at_object-Undone f d P h (number n) p s = (Extends-refl (table s), λ final ext. refl)
  at_object-Undone f d P h (string t) p s = (Extends-refl (table s), λ final ext. refl)
  at_object-Undone f d P h (array xs) p s = (Extends-refl (table s), λ final ext. refl)

  pub each_field-Undone :
      (f : Text → Value → S → Value × S) (d : GatewayConfig → Value → Value) (fs : Fields)
      → AllFields (λ k. Undone (f k) d) fs
      → Undone (each_field f) (λ g. map_fields (d g)) fs
  unfolding each_field
  each_field-Undone f d end h s = (Extends-refl (table s), λ final ext. refl)
  each_field-Undone f d (field k v fs) (h, hs) s =
      let (grows, back) = h s in
      let (grow, backs) = each_field-Undone f d fs hs (f k v s).1 in
      (
        Extends-trans (table s) (table (f k v s).1) (table (each_field f fs (f k v s).1).1) grows
            grow,
        λ final ext.
            ap (λ w. field k w (map_fields (d final) (each_field f fs (f k v s).1).0))
              (back final (Extends-trans _ _ final grow ext))
            ∙ ap (field k v) (backs final ext),
      )

  pub at_key-Undone :
      (k : Text) (f : Value → S → Value × S) (d : GatewayConfig → Value → Value) (fs : Fields)
      → ((v : Value) → lookup k fs ≡ some v → Undone f d v)
      → Undone (at_key k f) (λ g. map_key k (d g)) fs
  unfolding at_key lookup
  at_key-Undone k f d end h s = (Extends-refl (table s), λ final ext. refl)
  at_key-Undone k f d (field j v fs) h s = elim (Bool-cases (text_eq j k)) [
    | inl e ↦
        let (grows, back) = h v (rw (e, lookup) refl) s in
        rw (e, at_key) (grows, λ final ext. rw e (ap (λ w. field j w fs) (back final ext)))
    | inr e ↦
        let (grows, back) = at_key-Undone k f d fs (λ w at. h w (rw (e, lookup) at)) s in
        rw (e, at_key) (grows, λ final ext. rw e (ap (field j v) (back final ext)))
  ]
