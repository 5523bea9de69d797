-- ===== src/Storage/Fingerprints/Recent.antt =====
-- Which row of a tool is the most recent, and what the rows on record say of a fingerprint.
use mcpglass.Base.{
  List, [], ◌∷◌, ◌≡◌, ◌⊎◌, inl, inr, refl, ◌∙◌, Bool-cases, true, false, any, Any, All,
  if◌then◌else◌, arith,
}
use mcpglass.Base.Text.{Text, text_eq_iff}
use mcpglass.Storage.Fingerprints.{
  FingerprintOutcome, new, unchanged, changed, reverted, Row, in_scope, same_key, precedes,
  insert_ordered, history_of,
}
use mcpglass.Storage.Fingerprints.Order.{NotAfter, NotAfter-trans, precedes-NotAfter, precedes-not}
use mcpglass.Storage.Fingerprints.History.{has_fingerprint, any-history_of}

-- A row of that server and that tool.
abbrev pub InScope : Text → Text → Row → Type 0
InScope server_id tool_name r = (server_id ≡ r.server_key) × (tool_name ≡ r.tool_name)

-- The row of the tool that none of its rows comes after.
abbrev pub IsLatest : Text → Text → List Row → Row → Type 0
IsLatest server_id tool_name rows r =
    InScope server_id tool_name r
    × Any (λ q. q ≡ r) rows
    × All (λ q. (¬ InScope server_id tool_name q) ⊎ NotAfter q r) rows

abbrev pub HasFingerprint : Text → Text → Text → Row → Type 0
HasFingerprint server_id tool_name f q = InScope server_id tool_name q × (q.fingerprint ≡ f)

-- When an answer is right, given the rows on record.
abbrev pub IsAnswer : Text → Text → Text → List Row → FingerprintOutcome → Type 0
IsAnswer server_id tool_name f rows new = All (λ q. ¬ InScope server_id tool_name q) rows
IsAnswer server_id tool_name f rows unchanged =
    (r : Row) × IsLatest server_id tool_name rows r × (r.fingerprint ≡ f)
IsAnswer server_id tool_name f rows reverted =
    (r : Row) × IsLatest server_id tool_name rows r
    × (¬ (r.fingerprint ≡ f))
    × Any (HasFingerprint server_id tool_name f) rows
IsAnswer server_id tool_name f rows changed =
    (r : Row) × IsLatest server_id tool_name rows r
    × (¬ (r.fingerprint ≡ f))
    × All (λ q. ¬ HasFingerprint server_id tool_name f q) rows

All-map :
    {P Q : Row → Type 0} → ((q : Row) → P q → Q q) → (rows : List Row) → All P rows → All Q rows
All-map f [] h = tt
All-map f (q ∷ rows) h = (f q h.0, All-map f rows h.1)

module _ (server_id tool_name : Text) where
  in_scope-InScope :
      (r : Row) → in_scope server_id tool_name r ≡ true → InScope server_id tool_name r
  unfolding in_scope
  in_scope-InScope r h = (
    (text_eq_iff server_id r.server_key).0 (ground (arith, h)),
    (text_eq_iff tool_name r.tool_name).0 (ground (arith, h)),
  )

  in_scope-not :
      (r : Row) → in_scope server_id tool_name r ≡ false → ¬ InScope server_id tool_name r
  unfolding in_scope
  in_scope-not r h s =
      let a = (text_eq_iff server_id r.server_key).1 s.0 in
      let b = (text_eq_iff tool_name r.tool_name).1 s.1 in ground (arith, h, a, b)

  -- What a history shows in front: the latest row, or nothing of that tool.
  unfoldable Front : List Row → List Row → Type 0
  Front rows [] = All (λ q. ¬ InScope server_id tool_name q) rows
  Front rows (r ∷ _) = IsLatest server_id tool_name rows r

  Front-insert :
      (r : Row) (rows hs : List Row)
      → InScope server_id tool_name r
      → Front rows hs
      → Front (r ∷ rows) (insert_ordered r hs)
  unfolding insert_ordered Front
  Front-insert r rows [] s front =
      (s, inl refl, (inr (inr (refl, omega arith)), All-map (λ q n. inl n) rows front))
  Front-insert r rows (q ∷ hs) s front = elim (Bool-cases (precedes r q)) [
    | inl y ↦ rw y (
      s,
      inl refl,
      (
        inr (inr (refl, omega arith)),
        All-map {P = λ x. (¬ InScope server_id tool_name x) ⊎ NotAfter x q}
            (λ x h. elim h [
              | inl n ↦ inl n
              | inr before ↦ inr (NotAfter-trans x q r before (precedes-NotAfter r q y))
            ])
            rows front.2,
      ),
    )
    | inr n ↦ rw n (front.0, inr front.1, (inr (precedes-not r q n), front.2))
  ]

  Front-skip :
      (r : Row) (rows hs : List Row)
      → ¬ InScope server_id tool_name r
      → Front rows hs
      → Front (r ∷ rows) hs
  unfolding Front
  Front-skip r rows [] n front = (n, front)
  Front-skip r rows (q ∷ hs) n front = (front.0, inr front.1, (inl n, front.2))

  history_of-Front : (rows : List Row) → Front rows (history_of server_id tool_name rows)
  unfolding history_of
  history_of-Front [] = unfold Front in tt
  history_of-Front (r ∷ rows) = elim (Bool-cases (in_scope server_id tool_name r)) [
    | inl y ↦ rw y (Front-insert r rows _ (in_scope-InScope r y) (history_of-Front rows))
    | inr n ↦ rw n (Front-skip r rows _ (in_scope-not r n) (history_of-Front rows))
  ]

  pub history_of-nothing :
      (rows : List Row)
      → All (λ q. ¬ InScope server_id tool_name q) rows
      → history_of server_id tool_name rows ≡ []
  unfolding history_of
  history_of-nothing [] h = refl
  history_of-nothing (r ∷ rows) h = elim (Bool-cases (in_scope server_id tool_name r)) [
    | inl y ↦ absurd (h.0 (in_scope-InScope r y))
    | inr n ↦ rw n (history_of-nothing rows h.1)
  ]

  module _ (f : Text) where
    any-HasFingerprint :
        (rows : List Row)
        → any (same_key server_id tool_name f) rows ≡ true
        → Any (HasFingerprint server_id tool_name f) rows
    unfolding same_key
    any-HasFingerprint [] h = absurd (wrong h)
      where
        wrong : false ≡ true → ⊥
        wrong q = cc
    any-HasFingerprint (r ∷ rows) h = elim (Bool-cases (same_key server_id tool_name f r)) [
      | inl y ↦ inl (
        in_scope-InScope r (ground (arith, y)),
        (text_eq_iff r.fingerprint f).0 (ground (arith, y)),
      )
      | inr n ↦ inr (any-HasFingerprint rows (ground (arith, h, n)))
    ]

    any-none :
        (rows : List Row)
        → any (same_key server_id tool_name f) rows ≡ false
        → All (λ q. ¬ HasFingerprint server_id tool_name f q) rows
    unfolding same_key in_scope
    any-none [] h = tt
    any-none (r ∷ rows) h = (
      λ has.
          let a = (text_eq_iff server_id r.server_key).1 has.0.0 in
          let b = (text_eq_iff tool_name r.tool_name).1 has.0.1 in
          let c = (text_eq_iff r.fingerprint f).1 has.1 in ground (arith, h, a, b, c),
      any-none rows (ground (arith, h)),
    )

    differs : (r : Row) → has_fingerprint f r ≡ false → ¬ (r.fingerprint ≡ f)
    differs r n e = let y = (text_eq_iff r.fingerprint f).1 e in ground (arith, n, y)

    -- The answer that a history gives.
    unfoldable pub verdict : List Row → FingerprintOutcome
    verdict [] = new
    verdict (latest ∷ hs) =
        if has_fingerprint f latest
        then unchanged
        else if any (has_fingerprint f) hs
        then reverted
        else changed

    IsAnswer-Front :
        (rows hs : List Row)
        → Front rows hs
        → any (same_key server_id tool_name f) rows ≡ any (has_fingerprint f) hs
        → IsAnswer server_id tool_name f rows (verdict hs)
    unfolding verdict Front
    IsAnswer-Front rows [] front keys = front
    IsAnswer-Front rows (latest ∷ hs) front keys = elim (Bool-cases (has_fingerprint f latest)) [
      | inl y ↦ rw y (latest, front, (text_eq_iff latest.fingerprint f).0 y)
      | inr n ↦ elim (Bool-cases (any (has_fingerprint f) hs)) [
        | inl y ↦
            rw (n, y)
              (
                latest,
                front,
                differs latest n,
                any-HasFingerprint rows (keys ∙ ground (arith, n, y)),
              )
        | inr k ↦
            rw (n, k) (latest, front, differs latest n, any-none rows (keys ∙ ground (arith, n, k)))
      ]
    ]

    pub verdict-IsAnswer :
        (rows : List Row)
        → IsAnswer server_id tool_name f rows (verdict (history_of server_id tool_name rows))
    verdict-IsAnswer rows =
        IsAnswer-Front rows (history_of server_id tool_name rows) (history_of-Front rows)
          (any-history_of server_id tool_name f rows)
