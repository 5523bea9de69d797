-- ===== src/Gateway.antt =====
-- The gate of the HTTP gateway and the headers that it passes on: crates/cli/src/gateway.rs.
use mcpglass.Base.{
  ℕ, ◌+◌, Option, none, some, List, [], ◌∷◌, ◌++◌, Bool, true, false, ◌&&◌, ◌||◌, not, ◌==◌, leb,
  map, any, if◌then◌else◌,
}
use mcpglass.Base.Text.{Text, codes, text_eq}
use mcpglass.Clients.Route.{before}
use mcpglass.Clients.Entry.{to_ascii_lowercase}
pub mod Loopback
pub mod Commas
pub mod Headers

-- A header: its name in lower case, and its value where `to_str` gives one.
pub record Header : Type 0 where
  pub name : Text
  pub value : Option Text

-- `HeaderMap::get`: the first of that name.
unfoldable pub find_header : Text → List Header → Option Header
find_header name [] = none
find_header name (h ∷ hs) =
    let rest = find_header name hs in if text_eq h.name name then some h else rest

unfoldable pub is_end : ℕ → Bool
is_end c = c == b'/' || c == b':'

-- `rest.split(['/', ':']).next()`.
unfoldable pub before_end : Text → Text
before_end [] = []
before_end (c ∷ s) = let rest = before_end s in if is_end c then [] else c ∷ rest

unfoldable pub extract_host : Text → Text
extract_host [] = []
extract_host (c ∷ s) = if c == b'[' then before b']' s else before_end (c ∷ s)

unfoldable pub is_loopback_name : Text → Bool
is_loopback_name host =
    text_eq host (codes "localhost")
    || text_eq host (codes "127.0.0.1")
    || text_eq host (codes "::1")

unfoldable pub is_localhost_host : Text → Bool
is_localhost_host host = is_loopback_name (extract_host host)

-- `split_once("://")`, and the whole where it does not stand.
unfoldable pub after_scheme : Text → Option Text
after_scheme [] = none
after_scheme (c ∷ s) =
    let rest = after_scheme s in
    elim s [
      | d ∷ e ∷ tail ↦ (if c == b':' && d == b'/' && e == b'/' then some tail else rest)
      | _ ↦ none
    ]

unfoldable pub is_localhost_origin : Text → Bool
is_localhost_origin origin = elim (after_scheme origin) [
  | none ↦ is_loopback_name (extract_host origin)
  | some rest ↦ is_loopback_name (extract_host rest)
]

unfoldable pub passes_value : (Text → Bool) → Header → Bool
passes_value test h = elim h.value [ none ↦ false | some v ↦ test v ]

unfoldable pub origin_allowed : List Header → Bool
origin_allowed headers = elim (find_header (codes "origin") headers) [
  | none ↦ true
  | some h ↦ passes_value is_localhost_origin h
]

unfoldable pub host_allowed : List Header → Bool
host_allowed headers = elim (find_header (codes "host") headers) [
  | none ↦ false
  | some h ↦ passes_value is_localhost_host h
]

unfoldable pub request_allowed : List Header → Bool
request_allowed headers = origin_allowed headers && host_allowed headers

abbrev pub hop_by_hop_names : List Text
hop_by_hop_names =
    codes "connection"
    ∷ codes "keep-alive"
    ∷ codes "proxy-authenticate"
    ∷ codes "proxy-authorization"
    ∷ codes "te"
    ∷ codes "trailer"
    ∷ codes "transfer-encoding"
    ∷ codes "upgrade"
    ∷ codes "content-length"
    ∷ []

unfoldable pub is_hop_by_hop : Text → Bool
is_hop_by_hop name = any (text_eq name) hop_by_hop_names

-- `s.split(',')`, with the first part in front.
unfoldable pub split_commas : Text → Text × List Text
split_commas [] = ([], [])
split_commas (c ∷ s) =
    let o = split_commas s in if c == b',' then ([], o.0 ∷ o.1) else (c ∷ o.0, o.1)

-- The set of names as the list of them.
module _ (trim : Text → Text) where
  unfoldable pub add_token : Text → List Text → List Text
  add_token tok named =
      let name = map to_ascii_lowercase (trim tok) in
      if text_eq name [] then named else name ∷ named

  unfoldable pub add_tokens : List Text → List Text → List Text
  add_tokens [] named = named
  add_tokens (tok ∷ toks) named = add_token tok (add_tokens toks named)

  unfoldable pub names_of_value : Option Text → List Text → List Text
  names_of_value none named = named
  names_of_value (some s) named = let o = split_commas s in add_tokens (o.0 ∷ o.1) named

  unfoldable pub connection_named_headers : List Header → List Text
  connection_named_headers [] = []
  connection_named_headers (h ∷ hs) =
      let named = connection_named_headers hs in
      if text_eq h.name (codes "connection") then names_of_value h.value named else named

  unfoldable pub is_dropped : List Text → Text → Bool
  is_dropped named name =
      is_hop_by_hop name
      || any (text_eq name) named
      || text_eq name (codes "host")
      || text_eq name (codes "accept-encoding")

  unfoldable pub keep_headers : List Text → List Header → List Header
  keep_headers named [] = []
  keep_headers named (h ∷ hs) =
      let rest = keep_headers named hs in if is_dropped named h.name then rest else h ∷ rest

  unfoldable pub filter_request_headers : List Header → List Header
  filter_request_headers headers = keep_headers (connection_named_headers headers) headers
