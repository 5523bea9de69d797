-- ===== src/Clients/Route/Terminates.antt =====
-- The search for a route ends.
use mcpglass.Base.{
  ℕ, ◌+◌, ◌≤◌, ◌<◌, zero, suc, arith, none, some, Option-cases, List, [], ◌∷◌, ◌++◌, ◌≡◌, ◌≢◌, refl,
  sym, ap, ◌∙◌, Bool, true, false, Bool-cases, inl, inr, length, subst, if◌then◌else◌,
}
use mcpglass.Base.Text.{Text, text_eq, text_eq_iff}
use mcpglass.Clients.Table.{GatewayConfig, find_route, get_upstream}
use mcpglass.Clients.Table.Laws.{other_key}
use mcpglass.Clients.Route.{free_or_same, candidate, probe, sanitize_route, allocate_route}

-- The table without the entries of a route.
abbrev without : Text → List (Text × Text) → List (Text × Text)
without k [] = []
without k ((route, url) ∷ rest) =
    let others = without k rest in if text_eq route k then others else (route, url) ∷ others

length-without : (k : Text) (xs : List (Text × Text)) → length (without k xs) ≤ length xs
length-without k [] = omega arith
length-without k ((route, url) ∷ rest) = ground (arith, length-without k rest)

without_shorter :
    (k u : Text) (xs : List (Text × Text))
    → find_route k xs ≡ some u
    → length (without k xs) < length xs
unfolding find_route
without_shorter k u [] h = cc
without_shorter k u ((route, url) ∷ rest) h = elim (Bool-cases (text_eq route k)) [
  | inl e ↦ rw (e, without) (omega (arith, length-without k rest))
  | inr e ↦ rw (e, without) (omega (arith, without_shorter k u rest (rw (e, find_route) at h)))
]

find_route-without :
    (j k : Text) (xs : List (Text × Text)) → j ≢ k → find_route j (without k xs) ≡ find_route j xs
unfolding find_route
find_route-without j k [] h = refl
find_route-without j k ((route, url) ∷ rest) h = elim (Bool-cases (text_eq route k)) [
  | inl e ↦
      let other = other_key route j (λ same. h (sym same ∙ (text_eq_iff route k).0 e)) in
      rw (e, other, without, find_route) (find_route-without j k rest h)
  | inr e ↦
      rw (e, without)
        (ap (λ o. if text_eq route j then some url else o) (find_route-without j k rest h))
]

append_cancel : (base : Text) (a b : Text) → base ++ a ≡ base ++ b → a ≡ b
append_cancel [] a b h = h
append_cancel (x ∷ base) a b h = append_cancel base a b (cc h)

module _ (decimal : ℕ → Text) (injective : (m n : ℕ) → decimal m ≡ decimal n → m ≡ n)
    (url base : Text) where
  candidate_injective : (m n : ℕ) → candidate decimal base m ≡ candidate decimal base n → m ≡ n
  unfolding candidate
  candidate_injective m n h = injective m n (cc (append_cancel base _ _ h))

  abbrev Agree : ℕ → List (Text × Text) → List (Text × Text) → Type 0
  Agree n xs ys =
      (m : ℕ)
      → n ≤ m
      → find_route (candidate decimal base m) xs ≡ find_route (candidate decimal base m) ys

  free_or_same_agrees :
      (k : Text) (xs ys : List (Text × Text))
      → find_route k xs ≡ find_route k ys
      → free_or_same (record { servers = xs }) url k ≡ free_or_same (record { servers = ys }) url k
  unfolding free_or_same get_upstream
  free_or_same_agrees k xs ys h =
      ap (λ o. elim o as (λ _. Bool) [ none ↦ true | some existing ↦ text_eq existing url ]) h

  -- The search depends on the candidates that it tries.
  probe_agrees :
      (fuel n : ℕ) (xs ys : List (Text × Text))
      → Agree n xs ys
      → probe decimal fuel (record { servers = xs }) url base n
        ≡ probe decimal fuel (record { servers = ys }) url base n
  unfolding probe
  probe_agrees zero n xs ys h = refl
  probe_agrees (suc fuel) n xs ys h =
      let k = candidate decimal base n in
      let next = probe_agrees fuel (n + 1) xs ys (λ m le. h m (omega (arith, le))) in
      ap (λ b. if b then some k else probe decimal fuel (record { servers = xs }) url base (n + 1))
        (free_or_same_agrees k xs ys (h n (omega arith)))
      ∙ ap (λ rest. if free_or_same (record { servers = ys }) url k then some k else rest) next

  taken :
      (k : Text) (xs : List (Text × Text))
      → free_or_same (record { servers = xs }) url k ≡ false
      → (u : Text) × (find_route k xs ≡ some u)
  unfolding free_or_same get_upstream
  taken k xs h = elim (Option-cases (find_route k xs)) [
    | inl e ↦ absurd (true_ne_false (rw (e, free_or_same) at h))
    | inr found ↦ found
  ]
    where
      true_ne_false : true ≡ false → ⊥
      true_ne_false h = cc

  -- A round more than the table has entries finds a route: each candidate that is taken is another
  -- entry.
  probe_finds :
      (fuel n : ℕ) (xs : List (Text × Text))
      → length xs < fuel
      → (r : Text) × (probe decimal fuel (record { servers = xs }) url base n ≡ some r)
  unfolding probe
  probe_finds zero n xs h = absurd (omega (arith, h))
  probe_finds (suc fuel) n xs h =
      elim (Bool-cases (free_or_same (record { servers = xs }) url (candidate decimal base n))) [
        | inl e ↦ (candidate decimal base n, rw (e, probe) refl)
        | inr e ↦
            let k = candidate decimal base n in
            let t = taken k xs e in
            let (r, found) =
              probe_finds fuel (n + 1) (without k xs)
                (omega (arith, h, without_shorter k t.0 xs t.1)) in
            (
              r,
              rw (e, probe)
                  (probe_agrees fuel (n + 1) xs (without k xs) (λ m le. sym (
                      find_route-without _ k xs
                        (λ same. later m le (candidate_injective m n same))))
                    ∙ found),
            )
      ]
    where
      later : {n : ℕ} (m : ℕ) → n + 1 ≤ m → m ≢ n
      later m le = omega (arith, le)

  probe_found :
      (fuel n : ℕ) (gateway : GatewayConfig) (r : Text)
      → probe decimal fuel gateway url base n ≡ some r
      → free_or_same gateway url r ≡ true
  unfolding probe
  probe_found zero n gateway r h = cc
  probe_found (suc fuel) n gateway r h =
      let k = candidate decimal base n in
      elim (Bool-cases (free_or_same gateway url k)) [
        | inl e ↦
            subst (λ t. free_or_same gateway url t ≡ true) (some_injective (rw (e, probe) at h)) e
        | inr e ↦ probe_found fuel (n + 1) gateway r (rw (e, probe) at h)
      ]
    where
      some_injective : {a b : Text} → some a ≡ some b → a ≡ b
      some_injective h = cc

-- If the numbers have different texts: the search for a route ends within one round more than the
-- table has entries, and its route is free in the table or holds the same URL already.
pub allocate_route-free :
    (decimal : ℕ → Text) (gateway : GatewayConfig) (name url : Text)
    → ((m n : ℕ) → decimal m ≡ decimal n → m ≡ n)
    → (route : Text) × (allocate_route decimal gateway name url ≡ some route)
      × (free_or_same gateway url route ≡ true)
unfolding allocate_route
allocate_route-free decimal gateway name url injective =
    let base = sanitize_route name in
    elim (Bool-cases (free_or_same gateway url base)) [
      | inl e ↦ (base, rw (e, allocate_route) refl, e)
      | inr e ↦
          let (r, found) =
            probe_finds decimal injective url base (suc (length gateway.servers)) 2 gateway.servers
              (omega arith) in
          (
            r,
            rw (e, allocate_route) found,
            probe_found decimal injective url base (suc (length gateway.servers)) 2 gateway r found,
          )
    ]
