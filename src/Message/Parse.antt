-- ===== src/Message/Parse.antt =====
-- What `parse_line` finds in a frame.
use mcpglass.Base.{subst, ◌≡◌, ◌↔◌, refl, true, some, Option-cases, inl, inr}
use mcpglass.Base.Text.{Bytes, codes}
use mcpglass.Json.{Serde, Value, get}
use mcpglass.Message.{Direction, c2s, s2c, parse_line, message_of, is_some}

-- The frame is JSON and holds this value.
abbrev pub Reads : Serde → Bytes → Value → Type 0
Reads serde line v = serde.from_slice line ≡ some v

pub Reads-unique :
    (serde : Serde) (line : Bytes) (v w : Value) → Reads serde line v → Reads serde line w → v ≡ w
Reads-unique serde line v w p q = cc (p, q)

-- A frame counts as an error response exactly when it comes from the server, is JSON, and has an
-- `error` member at its top level.
pub parse_line-is_error :
    (serde : Serde) (line : Bytes) (d : Direction)
    → ((parse_line serde line d).is_error ≡ true)
      ↔ ((d ≡ s2c) × ((v : Value) × Reads serde line v × (is_some (get (codes "error") v) ≡ true)))
unfolding parse_line message_of
parse_line-is_error serde line d = elim (Option-cases (serde.from_slice line)) [
  | inl e ↦ (λ h. cc (rw (e, parse_line) at h), λ h. cc (e, h.1.1))
  | inr (v, e) ↦ (
    λ h. (server d v (rw (e, parse_line) at h), (v, e, has_error d v (rw (e, parse_line) at h))),
    λ h.
        rw (e, parse_line)
          (rw h.0 (
            subst (λ x. is_some (get (codes "error") x) ≡ true)
              (Reads-unique serde line h.1.0 v h.1.1 e) h.1.2)),
  )
]
  where
    server : (d : Direction) (v : Value) → (message_of serde v d).is_error ≡ true → d ≡ s2c
    server c2s v h = cc
    server s2c v h = refl

    has_error :
        (d : Direction) (v : Value)
        → (message_of serde v d).is_error ≡ true
        → is_some (get (codes "error") v) ≡ true
    has_error c2s v h = cc
    has_error s2c v h = h
