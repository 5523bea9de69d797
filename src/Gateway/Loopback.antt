-- ===== src/Gateway/Loopback.antt =====
-- Which hosts pass the gate.
use mcpglass.Base.{
  some, Option-cases, List, [], ◌∷◌, ◌++◌, ◌≡◌, ◌⊎◌, inl, inr, refl, ap, ◌∙◌, Bool, true, false,
  Bool-cases, ◌&&◌, ◌==◌, ==_iff, arith,
}
use mcpglass.Base.Text.{Text, codes, text_eq_iff}
use mcpglass.Clients.Route.{before}
use mcpglass.Gateway.{
  Header, find_header, is_end, before_end, extract_host, is_loopback_name, is_localhost_host,
  passes_value, origin_allowed, host_allowed, request_allowed,
}

-- A name of this machine.
abbrev pub Loopback : Text → Type 0
Loopback n = (n ≡ codes "localhost") ⊎ (n ≡ codes "127.0.0.1") ⊎ (n ≡ codes "::1")

-- What stands behind a host: nothing, or a text that starts with a colon or a slash.
abbrev pub Behind : Text → Type 0
Behind [] = Unit
Behind (c ∷ s) = is_end c ≡ true

-- What stands behind a host with an opening bracket: nothing, or a text that starts with the closing
-- one.
abbrev pub Closed : Text → Type 0
Closed [] = Unit
Closed (c ∷ s) = (c == b']') ≡ true

is_loopback_name-Loopback : (n : Text) → is_loopback_name n ≡ true → Loopback n
unfolding is_loopback_name
is_loopback_name-Loopback n h = ground (
  text_eq_iff n (codes "localhost"),
  text_eq_iff n (codes "127.0.0.1"),
  text_eq_iff n (codes "::1"),
  arith,
)

before_end-Behind : (s : Text) → (rest : Text) × (s ≡ before_end s ++ rest) × Behind rest
unfolding before_end
before_end-Behind [] = ([], refl, tt)
before_end-Behind (c ∷ s) = elim (Bool-cases (is_end c)) [
  | inl e ↦ rw (e, before_end) (c ∷ s, refl, e)
  | inr e ↦
      let (rest, same, behind) = before_end-Behind s in
      rw (e, before_end) (rest, ap (λ t. c ∷ t) same, behind)
]

before-Closed : (s : Text) → (rest : Text) × (s ≡ before b']' s ++ rest) × Closed rest
unfolding before
before-Closed [] = ([], refl, tt)
before-Closed (c ∷ s) = elim (Bool-cases (c == b']')) [
  | inl e ↦ rw (e, before) (c ∷ s, refl, e)
  | inr e ↦
      let (rest, same, closed) = before-Closed s in
      rw (e, before) (rest, ap (λ t. c ∷ t) same, closed)
]

-- A text that opens with a name of this machine, in front or behind an opening bracket.
abbrev pub OpensWithLoopback : Text → Type 0
OpensWithLoopback host =
    (n : Text) × Loopback n
    × (((rest : Text) × (host ≡ n ++ rest) × Behind rest)
        ⊎ ((rest : Text) × (host ≡ b'[' ∷ n ++ rest) × Closed rest))

is_localhost_host-OpensWithLoopback :
    (host : Text) → is_localhost_host host ≡ true → OpensWithLoopback host
unfolding is_localhost_host extract_host
is_localhost_host-OpensWithLoopback [] h = ([], is_loopback_name-Loopback [] h, inl ([], refl, tt))
is_localhost_host-OpensWithLoopback (c ∷ s) h = elim (Bool-cases (c == b'[')) [
  | inl e ↦
      let (rest, same, closed) = before-Closed s in
      (
        before b']' s,
        is_loopback_name-Loopback _ (rw (e, extract_host) at h),
        inr (rest, ap (λ x. x ∷ s) ((==_iff c b'[').0 e) ∙ ap (λ t. b'[' ∷ t) same, closed),
      )
  | inr e ↦
      let (rest, same, behind) = before_end-Behind (c ∷ s) in
      (
        before_end (c ∷ s),
        is_loopback_name-Loopback _ (rw (e, extract_host) at h),
        inl (rest, same, behind),
      )
]

passes_value-OpensWithLoopback :
    (h : Header)
    → passes_value is_localhost_host h ≡ true
    → (host : Text) × (h.value ≡ some host) × OpensWithLoopback host
unfolding passes_value
passes_value-OpensWithLoopback h passes = elim (Option-cases h.value) [
  | inl e ↦ absurd (wrong (rw (e, passes_value) at passes))
  | inr (host, e) ↦
      (host, e, is_localhost_host-OpensWithLoopback host (rw (e, passes_value) at passes))
]
  where
    wrong : false ≡ true → ⊥
    wrong q = cc

and_right : (a b : Bool) → (a && b) ≡ true → b ≡ true
and_right true b h = h
and_right false b h = cc

-- A request that passes the gate has a Host header, and the value of the first one opens with a
-- loopback name, `localhost`, `127.0.0.1` or `::1`: either the name stands in front, and nothing, a
-- colon or a slash comes next; or it stands behind an opening bracket, and nothing or a closing
-- bracket comes next. What comes behind the colon, the slash or the closing bracket is any text.
pub request_allowed-OpensWithLoopback :
    (headers : List Header)
    → request_allowed headers ≡ true
    → (h : Header) × (host : Text) × (find_header (codes "host") headers ≡ some h)
      × (h.value ≡ some host)
      × OpensWithLoopback host
unfolding request_allowed host_allowed
request_allowed-OpensWithLoopback headers allowed =
    let by_host = and_right (origin_allowed headers) (host_allowed headers) allowed in
    elim (Option-cases (find_header (codes "host") headers)) [
      | inl e ↦ absurd (wrong (rw (e, host_allowed) at by_host))
      | inr (h, e) ↦
          let (host, value, names) =
            passes_value-OpensWithLoopback h (rw (e, host_allowed) at by_host) in
          (h, host, e, value, names)
    ]
  where
    wrong : false ≡ true → ⊥
    wrong q = cc
