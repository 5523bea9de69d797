-- ===== src/Gateway/Commas.antt =====
-- A header value and the texts between its commas.
use mcpglass.Base.{
  ℕ, List, [], ◌∷◌, ◌++◌, ◌≡◌, refl, sym, ap, ◌∙◌, false, Bool-cases, inl, inr, ◌==◌, All, ==_iff,
}
use mcpglass.Base.Text.{Text}
use mcpglass.Gateway.{split_commas}

-- Texts with a comma between two.
abbrev pub joined : List Text → Text
joined [] = []
joined (t ∷ []) = t
joined (t ∷ u ∷ ts) = t ++ b',' ∷ joined (u ∷ ts)

abbrev pub HasNoComma : Text → Type 0
HasNoComma = All (λ c. (c == b',') ≡ false)

joined-cons : (c : ℕ) (t : Text) (ts : List Text) → joined ((c ∷ t) ∷ ts) ≡ c ∷ joined (t ∷ ts)
joined-cons c t [] = refl
joined-cons c t (u ∷ ts) = refl

pub split_commas-joined :
    (s : Text)
    → (s ≡ joined ((split_commas s).0 ∷ (split_commas s).1))
      × All HasNoComma ((split_commas s).0 ∷ (split_commas s).1)
unfolding split_commas
split_commas-joined [] = (refl, (tt, tt))
split_commas-joined (c ∷ s) =
    let (same, free) = split_commas-joined s in
    elim (Bool-cases (c == b',')) [
      | inl y ↦
          rw (y, split_commas)
            (ap (λ x. x ∷ s) ((==_iff c b',').0 y) ∙ ap (λ t. b',' ∷ t) same, (tt, free))
      | inr n ↦
          rw (n, split_commas)
            (
              ap (λ t. c ∷ t) same ∙ sym (joined-cons c (split_commas s).0 (split_commas s).1),
              ((n, free.0), free.1),
            )
    ]

split_one : (t : Text) → HasNoComma t → split_commas t ≡ (t, [])
unfolding split_commas
split_one [] h = refl
split_one (c ∷ t) h = rw (h.0, split_commas) (ap (λ o. (c ∷ o.0, o.1)) (split_one t h.1))

split_more :
    (t r : Text)
    → HasNoComma t
    → split_commas (t ++ b',' ∷ r) ≡ (t, (split_commas r).0 ∷ (split_commas r).1)
unfolding split_commas
split_more [] r h = refl
split_more (c ∷ t) r h = rw (h.0, split_commas) (ap (λ o. (c ∷ o.0, o.1)) (split_more t r h.1))

pub split_joined :
    (t : Text) (ts : List Text) → All HasNoComma (t ∷ ts) → split_commas (joined (t ∷ ts)) ≡ (t, ts)
split_joined t [] h = split_one t h.0
split_joined t (u ∷ ts) h =
    split_more t (joined (u ∷ ts)) h.0 ∙ ap (λ o. (t, o.0 ∷ o.1)) (split_joined u ts h.1)
