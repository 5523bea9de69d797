-- ===== src/Base/Run.antt =====
-- Loops that carry a state and emit outputs: one round is a function from the state and an item to
-- the outputs of the round and the next state.
use mathlib.Core.Path.{◌≡◌, refl}
use mathlib.Core.List.{List, [], ◌∷◌, ◌++◌, append_assoc}

module _ {ℓ κ μ} {S : Type ℓ} {A : Type κ} {B : Type μ} where
  abbrev pub run : (S → A → List B × S) → S → List A → List B × S
  run f s [] = ([], s)
  run f s (x ∷ xs) = let rest = run f (f s x).1 xs in ((f s x).0 ++ rest.0, rest.1)

  -- A loop over two lists is the loop over the first, and from where it ends over the second.
  pub run-append :
      (f : S → A → List B × S) (s : S) (xs ys : List A)
      → run f s (xs ++ ys)
        ≡ ((run f s xs).0 ++ (run f (run f s xs).1 ys).0, (run f (run f s xs).1 ys).1)
  run-append f s [] ys = refl
  run-append f s (x ∷ xs) ys = rw (run-append f (f s x).1 xs ys, append_assoc)

-- What every round keeps, the loop keeps.
module _ {ℓ κ μ ν} {S : Type ℓ} {A : Type κ} {B : Type μ} (P : S → Type ν) where
  pub run_inv :
      (f : S → A → List B × S)
      → ((s : S) (x : A) → P s → P (f s x).1)
      → (s : S) (xs : List A) → P s
      → P (run f s xs).1
  run_inv f keep s [] h = h
  run_inv f keep s (x ∷ xs) h = run_inv f keep (f s x).1 xs (keep s x h)
