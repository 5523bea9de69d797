-- ===== src/Clients/Document/Keys.antt =====
-- Two keys of one object that are visited after each other.
use mcpglass.Base.{◌≡◌, ◌≢◌, refl, sym, ap, ◌∙◌, true, false, Bool-cases, inl, inr, subst}
use mcpglass.Base.Text.{Text, text_eq, text_eq_iff}
use mcpglass.Json.{Value, Fields, end, field}
use mcpglass.Clients.Table.{GatewayConfig}
use mcpglass.Clients.Table.Laws.{other_key, Extends, Extends-trans}
use mcpglass.Clients.Document.{at_key}
use mcpglass.Clients.Document.Undo.{map_key, Undone}

module _ {S : Type 0} (j k : Text) (differ : j ≢ k) (f g : Value → S → Value × S) where
  not_both : (i : Text) → text_eq i j ≡ true → text_eq i k ≡ false
  not_both i e = other_key i k (λ same. differ (sym ((text_eq_iff i j).0 e) ∙ same))

  -- What a visit of the one key does to the state does not depend on a visit of the other.
  at_key-state :
      (fs : Fields) (s t : S) → (at_key k g (at_key j f fs t).0 s).1 ≡ (at_key k g fs s).1
  unfolding at_key
  at_key-state end s t = refl
  at_key-state (field i v fs) s t = elim (Bool-cases (text_eq i j)) [
    | inl e ↦ rw (e, at_key) (rw (not_both i e, at_key) refl)
    | inr e ↦ elim (Bool-cases (text_eq i k)) [
      | inl q ↦ rw (e, at_key) (rw (q, at_key) refl)
      | inr q ↦ rw (e, at_key) (rw (q, at_key) (at_key-state fs s t))
    ]
  ]

  at_key-map_key :
      (d : Value → Value) (fs : Fields) (s : S)
      → map_key j d (at_key k g fs s).0 ≡ (at_key k g (map_key j d fs) s).0
  unfolding at_key
  at_key-map_key d end s = refl
  at_key-map_key d (field i v fs) s = elim (Bool-cases (text_eq i j)) [
    | inl e ↦ rw (e, not_both i e, at_key) (rw e refl)
    | inr e ↦ elim (Bool-cases (text_eq i k)) [
      | inl q ↦ rw (e, q, at_key) (rw e refl)
      | inr q ↦ rw (e, q, at_key) (rw e (ap (field i v) (at_key-map_key d fs s)))
    ]
  ]

  module _ (table : S → GatewayConfig) (d c : GatewayConfig → Value → Value) where
    -- So each visit is undone by itself.
    pub at_keys-Undone :
        (fs : Fields)
        → Undone table (at_key j f) (λ h. map_key j (d h)) fs
        → Undone table (at_key k g) (λ h. map_key k (c h)) fs
        → Undone table
            (λ fs s. let o = at_key j f fs s in at_key k g o.0 o.1)
            (λ h fs. map_key k (c h) (map_key j (d h) fs))
            fs
    at_keys-Undone fs left right s =
        let o = at_key j f fs s in
        let (grows, back) = left s in
        let (grow, backs) = right o.1 in
        let state = at_key-state fs o.1 s in
        let grow_there = subst (λ t. Extends (table o.1) (table t)) (sym state) grow in
        (
          Extends-trans _ _ _ grows grow_there,
          λ final ext.
              ap (map_key k (c final)) (at_key-map_key (d final) o.0 o.1)
              ∙ ap (λ x. map_key k (c final) (at_key k g x o.1).0)
                  (back final (Extends-trans _ _ _ grow_there ext))
              ∙ backs final (subst (λ t. Extends (table t) final) state ext),
        )
