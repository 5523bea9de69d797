-- ===== src/Gateway/Headers.antt =====
-- Which headers go upstream.
use mcpglass.Base.{
  ℕ, none, some, Option, List, [], ◌∷◌, ◌+◌, ◌≡◌, ◌≢◌, ◌↔◌, ◌⊎◌, refl, sym, ap, subst, ◌∙◌, Bool,
  true, false, Bool-cases, inl, inr, ◌||◌, map, any, Any, All, Deleted, no_more, gone, stays, arith,
}
use mcpglass.Base.Text.{Text, codes, text_eq, text_eq_iff}
use mcpglass.Clients.Entry.{to_ascii_lowercase}
use mcpglass.Gateway.Commas.{joined, HasNoComma, split_commas-joined, split_joined}
use mcpglass.Gateway.{
  Header, is_hop_by_hop, split_commas, add_token, add_tokens, names_of_value,
  connection_named_headers, is_dropped, keep_headers, filter_request_headers,
}

-- The headers that are for one connection alone, and the ones that the gateway sets itself.
abbrev pub not_forwarded : List Text
not_forwarded =
    codes "host"
    ∷ codes "accept-encoding"
    ∷ codes "connection"
    ∷ codes "keep-alive"
    ∷ codes "proxy-authenticate"
    ∷ codes "proxy-authorization"
    ∷ codes "te"
    ∷ codes "trailer"
    ∷ codes "transfer-encoding"
    ∷ codes "upgrade"
    ∷ codes "content-length"
    ∷ []

any_iff : (name : Text) (xs : List Text) → (any (text_eq name) xs ≡ true) ↔ Any (λ n. name ≡ n) xs
any_iff name [] = (λ h. cc, λ h. absurd h)
any_iff name (x ∷ xs) = elim (Bool-cases (text_eq name x)) [
  | inl y ↦ (λ h. inl ((text_eq_iff name x).0 y), λ h. rw y refl)
  | inr n ↦ (
    λ h. inr ((any_iff name xs).0 (ground (arith, h, n))),
    λ h. elim h [
      | inl e ↦ ground (arith, (text_eq_iff name x).1 e)
      | inr there ↦ ground (arith, (any_iff name xs).1 there)
    ],
  )
]

or_order : (a n c d : Bool) → (a || n || c || d) ≡ ((c || (d || a)) || n)
or_order a n c d = ground arith

or_iff : (a b : Bool) → ((a || b) ≡ true) ↔ ((a ≡ true) ⊎ (b ≡ true))
or_iff true b = (λ h. inl refl, λ h. refl)
or_iff false b = (λ h. inr h, λ h. ground (arith, h))

module _ (trim : Text → Text) where
  -- The name stands, trimmed and in lower case, between the commas of the value.
  abbrev pub IsListed : Text → Option Text → Type 0
  IsListed name none = ⊥
  IsListed name (some s) =
      (toks : List Text) × (s ≡ joined toks)
      × All HasNoComma toks
      × Any (λ tok. map to_ascii_lowercase (trim tok) ≡ name) toks

  -- Some Connection header lists the name.
  abbrev pub IsNamed : List Header → Text → Type 0
  IsNamed headers name = Any (λ h. (h.name ≡ codes "connection") × IsListed name h.value) headers

  add_token_iff :
      (name tok : Text) (named : List Text)
      → name ≢ []
      → (any (text_eq name) (add_token trim tok named) ≡ true)
        ↔ ((map to_ascii_lowercase (trim tok) ≡ name) ⊎ (any (text_eq name) named ≡ true))
  unfolding add_token
  add_token_iff name tok named full =
      let own = map to_ascii_lowercase (trim tok) in
      elim (Bool-cases (text_eq own [])) [
        | inl y ↦
            rw (y, add_token)
              (
                λ h. inr h,
                λ h. elim h [
                  | inl e ↦ absurd (full (sym e ∙ (text_eq_iff own []).0 y))
                  | inr b ↦ b
                ],
              )
        | inr n ↦
            rw (n, add_token)
              (
                λ h. elim ((or_iff (text_eq name own) (any (text_eq name) named)).0 h) [
                  | inl e ↦ inl (sym ((text_eq_iff name own).0 e))
                  | inr b ↦ inr b
                ],
                λ h.
                    (or_iff (text_eq name own) (any (text_eq name) named)).1
                      (elim h [ inl e ↦ inl ((text_eq_iff name own).1 (sym e)) | inr b ↦ inr b ]),
              )
      ]

  add_tokens_iff :
      (name : Text) (toks named : List Text)
      → name ≢ []
      → (any (text_eq name) (add_tokens trim toks named) ≡ true) ↔ (
          Any (λ tok. map to_ascii_lowercase (trim tok) ≡ name) toks
          ⊎ (any (text_eq name) named ≡ true))
  unfolding add_tokens
  add_tokens_iff name [] named full = (λ h. inr h, λ h. elim h [ inl x ↦ absurd x | inr y ↦ y ])
  add_tokens_iff name (tok ∷ toks) named full =
      let rest = add_tokens_iff name toks named full in
      let here = add_token_iff name tok (add_tokens trim toks named) full in
      (
        λ h. elim (here.0 h) [
          | inl e ↦ inl (inl e)
          | inr later ↦ elim (rest.0 later) [ inl a ↦ inl (inr a) | inr b ↦ inr b ]
        ],
        λ h. here.1 (elim h [
          | inl (inl e) ↦ inl e
          | inl (inr a) ↦ inr (rest.1 (inl a))
          | inr b ↦ inr (rest.1 (inr b))
        ]),
      )

  add_listed :
      (name s : Text) (toks named : List Text)
      → name ≢ []
      → s ≡ joined toks
      → All HasNoComma toks
      → Any (λ tok. map to_ascii_lowercase (trim tok) ≡ name) toks
      → any (text_eq name) (add_tokens trim ((split_commas s).0 ∷ (split_commas s).1) named) ≡ true
  add_listed name s [] named full same free a = absurd a
  add_listed name s (t ∷ ts) named full same free a =
      subst (λ o. any (text_eq name) (add_tokens trim (o.0 ∷ o.1) named) ≡ true)
        (sym (ap split_commas same ∙ split_joined t ts free))
        ((add_tokens_iff name (t ∷ ts) named full).1 (inl a))

  names_of_value_iff :
      (name : Text) (value : Option Text) (named : List Text)
      → name ≢ []
      → (any (text_eq name) (names_of_value trim value named) ≡ true)
        ↔ (IsListed name value ⊎ (any (text_eq name) named ≡ true))
  unfolding names_of_value
  names_of_value_iff name none named full =
      (λ h. inr h, λ h. elim h [ inl x ↦ absurd x | inr y ↦ y ])
  names_of_value_iff name (some s) named full =
      let o = split_commas s in
      let tokens = add_tokens_iff name (o.0 ∷ o.1) named full in
      (
        λ h. elim (tokens.0 h) [
          | inl a ↦ inl (o.0 ∷ o.1, (split_commas-joined s).0, (split_commas-joined s).1, a)
          | inr b ↦ inr b
        ],
        λ h. elim h [
          | inl (toks, same, free, a) ↦ add_listed name s toks named full same free a
          | inr b ↦ tokens.1 (inr b)
        ],
      )

  connection_named_headers_iff :
      (name : Text) (hs : List Header)
      → name ≢ []
      → (any (text_eq name) (connection_named_headers trim hs) ≡ true)
        ↔ Any (λ h. (h.name ≡ codes "connection") × IsListed name h.value) hs
  unfolding connection_named_headers
  connection_named_headers_iff name [] full = (λ h. cc, λ h. absurd h)
  connection_named_headers_iff name (h ∷ hs) full =
      let rest = connection_named_headers_iff name hs full in
      let here = names_of_value_iff name h.value (connection_named_headers trim hs) full in
      elim (Bool-cases (text_eq h.name (codes "connection"))) [
        | inl y ↦
            rw (y, connection_named_headers)
              (
                λ k. elim (here.0 k) [
                  | inl listed ↦ inl ((text_eq_iff h.name (codes "connection")).0 y, listed)
                  | inr later ↦ inr (rest.0 later)
                ],
                λ k.
                    here.1
                      (elim k [ inl (_, listed) ↦ inl listed | inr later ↦ inr (rest.1 later) ]),
              )
        | inr n ↦
            rw (n, connection_named_headers)
              (
                λ k. inr (rest.0 k),
                λ k. elim k [
                  | inl (e, _) ↦
                      absurd (no_name h.name n ((text_eq_iff h.name (codes "connection")).1 e))
                  | inr later ↦ rest.1 later
                ],
              )
      ]
    where
      no_name :
          (t : Text)
          → text_eq t (codes "connection") ≡ false
          → text_eq t (codes "connection") ≡ true
          → ⊥
      no_name t n y = ground (arith, n, y)

  -- A header that stays behind.
  abbrev pub IsWithheld : List Header → Header → Type 0
  IsWithheld headers h = Any (λ n. h.name ≡ n) not_forwarded ⊎ IsNamed headers h.name

  is_dropped_iff :
      (headers : List Header) (h : Header)
      → h.name ≢ []
      → (is_dropped trim (connection_named_headers trim headers) h.name ≡ true)
        ↔ IsWithheld headers h
  unfolding is_dropped is_hop_by_hop
  is_dropped_iff headers h full =
      let named = any (text_eq h.name) (connection_named_headers trim headers) in
      let same =
        or_order (is_hop_by_hop h.name) named (text_eq h.name (codes "host"))
          (text_eq h.name (codes "accept-encoding")) in
      let either = or_iff (any (text_eq h.name) not_forwarded) named in
      (
        λ d. elim (either.0 (sym same ∙ d)) [
          | inl f ↦ inl ((any_iff h.name not_forwarded).0 f)
          | inr n ↦ inr ((connection_named_headers_iff h.name headers full).0 n)
        ],
        λ w.
            same
            ∙ either.1 (elim w [
              | inl f ↦ inl ((any_iff h.name not_forwarded).1 f)
              | inr n ↦ inr ((connection_named_headers_iff h.name headers full).1 n)
            ]),
      )

  keep_headers-Deleted :
      (headers hs : List Header)
      → All (λ h. h.name ≢ []) hs
      → (n : ℕ) × Deleted
          (IsWithheld headers)
          (λ h. ¬ IsWithheld headers h)
          hs
          (keep_headers trim (connection_named_headers trim headers) hs)
          n
  unfolding keep_headers
  keep_headers-Deleted headers [] full = (0, no_more)
  keep_headers-Deleted headers (h ∷ hs) full =
      let (n, rest) = keep_headers-Deleted headers hs full.1 in
      let test = is_dropped_iff headers h full.0 in
      elim (Bool-cases (is_dropped trim (connection_named_headers trim headers) h.name)) [
        | inl y ↦ rw (y, keep_headers) (n + 1, gone (test.0 y) rest)
        | inr k ↦ rw (k, keep_headers) (n, stays (λ w. not_both _ k (test.1 w)) rest)
      ]
    where
      not_both : (b : Bool) → b ≡ false → b ≡ true → ⊥
      not_both b f t = ground (arith, f, t)

  -- Where no header has an empty name, what goes upstream are the headers of the request, in order,
  -- without those of a fixed list of names (`Host`, `Accept-Encoding`, `Content-Length` and the
  -- hop-by-hop ones) and those whose name a Connection header lists between its commas, trimmed
  -- and in lower case; and no others are withheld.
  pub filter_request_headers-Deleted :
      (headers : List Header)
      → All (λ h. h.name ≢ []) headers
      → (n : ℕ) × Deleted
          (IsWithheld headers)
          (λ h. ¬ IsWithheld headers h)
          headers
          (filter_request_headers trim headers)
          n
  unfolding filter_request_headers
  filter_request_headers-Deleted headers full = keep_headers-Deleted headers headers full
