-- ===== src/Clients/Route.antt =====
-- The routes of the local gateway in a client's URLs.
pub mod Terminates
use mcpglass.Base.{
  ℕ, ◌+◌, zero, suc, Option, none, some, [], ◌∷◌, ◌++◌, Bool, true, ◌&&◌, ◌||◌, ◌==◌, leb, map,
  length, if◌then◌else◌,
}
use mcpglass.Base.Text.{Text, codes, text_eq}
use mcpglass.Json.{◌>>=◌}
use mcpglass.Clients.Table.{GatewayConfig, get_upstream}

-- `str::strip_prefix`.
unfoldable pub strip_prefix : Text → Text → Option Text
strip_prefix [] s = some s
strip_prefix (x ∷ p) [] = none
strip_prefix (x ∷ p) (y ∷ s) = if x == y then strip_prefix p s else none

-- `str::split_once` at a character.
unfoldable pub split_once : ℕ → Text → Option (Text × Text)
split_once c [] = none
split_once c (x ∷ s) =
    let rest = split_once c s in
    if x == c then some ([], s) else (do (a, b) ← rest; some (x ∷ a, b))

-- `split(c).next()`: what stands before the first `c`.
unfoldable pub before : ℕ → Text → Text
before c [] = []
before c (x ∷ s) = if x == c then [] else x ∷ before c s

unfoldable pub is_loopback : Text → Bool
is_loopback host = text_eq host (codes "127.0.0.1") || text_eq host (codes "localhost")

unfoldable pub gateway_route : Text → Option Text
gateway_route url = do
  rest ← strip_prefix (codes "http://") url
  (authority, path) ← split_once b'/' rest
  if is_loopback (before b':' authority) then strip_prefix (codes "u/") path else none

unfoldable pub is_ascii_alphanumeric : ℕ → Bool
is_ascii_alphanumeric c =
    (leb b'0' c && leb c b'9') || (leb b'A' c && leb c b'Z') || (leb b'a' c && leb c b'z')

unfoldable pub safe_char : ℕ → ℕ
safe_char c = if is_ascii_alphanumeric c || c == b'.' || c == b'_' || c == b'-' then c else b'-'

unfoldable pub sanitize_route : Text → Text
sanitize_route name = map safe_char name

-- Whether a route is free or has this URL already.
unfoldable pub free_or_same : GatewayConfig → Text → Text → Bool
free_or_same gateway url route = elim (get_upstream gateway route) [
  | none ↦ true
  | some existing ↦ text_eq existing url
]

module _ (decimal : ℕ → Text) where
  -- `format!("{base}~{n}")`.
  unfoldable pub candidate : Text → ℕ → Text
  candidate base n = base ++ b'~' ∷ decimal n

  -- The loop over `n`, for as many rounds as there is fuel.
  unfoldable pub probe : ℕ → GatewayConfig → Text → Text → ℕ → Option Text
  probe zero gateway url base n = none
  probe (suc fuel) gateway url base n =
      let rest = probe fuel gateway url base (n + 1) in
      if free_or_same gateway url (candidate base n) then some (candidate base n) else rest

  -- The fuel is one round more than the table has entries.
  unfoldable pub allocate_route : GatewayConfig → Text → Text → Option Text
  allocate_route gateway name url =
      let base = sanitize_route name in
      if free_or_same gateway url base
      then some base
      else probe (suc (length gateway.servers)) gateway url base 2
