-- ===== src/Tap/Pending/Bounds.antt =====
-- The bound of the pending requests, and what is found among them.
use mcpglass.Base.{
  ◌<◌, ◌≤◌, none, some, [], ◌∷◌, ◌≡◌, refl, Bool-cases, true, false, leb, if◌then◌else◌, length,
  ◌⊎◌, inl, inr, arith,
}
use mcpglass.Base.Text.{Text, text_eq_iff, text_eq_refl}
use mcpglass.Base.Int.{ℤ, int_lt}
use mcpglass.Tap.Pending.{
  Waiting, Pending, cap, contains_key, find_value, remove, oldest, evict, note_request, take,
}

length-remove : {A : Type 0} (id : Text) (p : Pending A) → length (remove id p) ≤ length p
unfolding remove
length-remove id [] = omega arith
length-remove id (e ∷ es) = ground (arith, length-remove id es)

length-remove_lt :
    {A : Type 0} (id : Text) (p : Pending A)
    → contains_key id p ≡ true
    → length (remove id p) < length p
unfolding remove contains_key
length-remove_lt id [] h = ground arith
length-remove_lt id (e ∷ es) h = ground (arith, length-remove id es, length-remove_lt id es)

-- The oldest entry is the first one or stands among the others.
abbrev Stands : {A : Type 0} → Text → Text × Waiting A → Pending A → Type 0
Stands o e es = (o ≡ e.0) ⊎ (contains_key o es ≡ true)

Stands-contains_key :
    {A : Type 0} (o : Text) (e : Text × Waiting A) (es : Pending A)
    → Stands o e es
    → contains_key o (e ∷ es) ≡ true
unfolding contains_key
Stands-contains_key o e es (inl h) = ground (arith, text_eq_iff o e.0)
Stands-contains_key o e es (inr h) = ground arith

Stands-later :
    {A : Type 0} (o : Text) (e f : Text × Waiting A) (fs : Pending A)
    → Stands o e fs
    → Stands o e (f ∷ fs)
unfolding contains_key
Stands-later o e f fs (inl h) = inl h
Stands-later o e f fs (inr h) = inr (ground arith)

oldest-Stands : {A : Type 0} (e : Text × Waiting A) (es : Pending A) → Stands (oldest e es) e es
unfolding oldest
oldest-Stands e [] = inl refl
oldest-Stands e (f ∷ fs) =
    elim (int_lt f.1.ts_ms e.1.ts_ms)
      as (λ b. Stands (if b then oldest f fs else oldest e fs) e (f ∷ fs)) [
        | true ↦ inr (Stands-contains_key (oldest f fs) f fs (oldest-Stands f fs))
        | false ↦ Stands-later (oldest e fs) e f fs (oldest-Stands e fs)
      ]

contains_key-oldest :
    {A : Type 0} (e : Text × Waiting A) (es : Pending A)
    → contains_key (oldest e es) (e ∷ es) ≡ true
contains_key-oldest e es = Stands-contains_key (oldest e es) e es (oldest-Stands e es)

length-evict : {A : Type 0} (p : Pending A) → 0 < length p → length (evict p) < length p
unfolding evict
length-evict [] h = ground arith
length-evict (e ∷ es) h = length-remove_lt (oldest e es) (e ∷ es) (contains_key-oldest e es)

-- Noting a request never takes the pending requests over the cap of 1024.
pub length-note_request :
    {A : Type 0} (id : Text) (ts_ms : ℤ) (value : A) (p : Pending A)
    → length p ≤ cap
    → length (note_request id ts_ms value p) ≤ cap
unfolding note_request
length-note_request id ts_ms value p h = elim (Bool-cases (contains_key id p)) [
  | inl y ↦ rw y (omega (arith, length-remove_lt id p y))
  | inr n ↦ rw n (elim (Bool-cases (leb cap (length p))) [
    | inl m ↦ rw m (ground (arith, m, length-remove id (evict p), length-evict p))
    | inr m ↦ rw m (ground (arith, m, length-remove id p))
  ])
]

find_value-remove : {A : Type 0} (id : Text) (p : Pending A) → find_value id (remove id p) ≡ none
unfolding find_value remove
find_value-remove id [] = refl
find_value-remove id (e ∷ es) = ground (arith, find_value-remove id es)

-- A request that is noted is found by its response with the value that was noted, and only once: a
-- second response with the same id finds none, unless the id is noted again.
pub take-note_request :
    {A : Type 0} (id : Text) (ts_ms : ℤ) (value : A) (p : Pending A)
    → ((take id (note_request id ts_ms value p)).0 ≡ some value)
      × ((take id (take id (note_request id ts_ms value p)).1).0 ≡ none)
unfolding take note_request find_value
take-note_request id ts_ms value p =
    (ground (arith, text_eq_refl id), find_value-remove id (note_request id ts_ms value p))
