-- ===== src/Clients/Entry/Url.antt =====
-- Detaching a URL that was attached.
use mcpglass.Base.{
  ℕ, none, some, [], ◌∷◌, ◌++◌, ◌≡◌, ◌≢◌, arith, refl, sym, ap, ◌∙◌, subst, Bool, true, false,
  Bool-cases, inl, inr, All, append_assoc, if◌then◌else◌, ◌==◌, ==_iff,
}
use mcpglass.Base.Text.{Text, codes, text_eq, text_eq_iff}
use mcpglass.Json.{string, object, Fields, as_str, lookup, ◌>>=◌}
use mcpglass.Clients.Table.{
  GatewayConfig, find_route, get_upstream, put_route, record_upstream, insert,
}
use mcpglass.Clients.Table.Laws.{
  lookup-insert, lookup-insert_other, insert-insert, insert_same, find_route-put_route,
  find_route-put_route_other, Extends,
}
use mcpglass.Clients.Route.{
  strip_prefix, split_once, before, is_loopback, gateway_route, free_or_same,
}
use mcpglass.Clients.Route.Terminates.{allocate_route-free}
use mcpglass.Clients.Entry.{
  Outside, gateway_url, attach_url_entry, detach_route, detach_by, detach_entry,
}
use mcpglass.Clients.Entry.Plain.{Documented}

abbrev NoSlash : Text → Type 0
NoSlash = All (λ c. c ≢ b'/')

NoSlash-append : (a b : Text) → NoSlash a → NoSlash b → NoSlash (a ++ b)
NoSlash-append [] b h k = k
NoSlash-append (x ∷ a) b (h, hs) k = (h, NoSlash-append a b hs k)

loopback-NoSlash : NoSlash (codes "127.0.0.1:")
loopback-NoSlash = omega arith

split_once-append :
    (a rest : Text) → NoSlash a → split_once b'/' (a ++ b'/' ∷ rest) ≡ some (a, rest)
unfolding split_once
split_once-append [] rest h = refl
split_once-append (x ∷ a) rest (h, hs) = elim (Bool-cases (x == b'/')) [
  | inl e ↦ absurd (h ((==_iff x b'/').0 e))
  | inr e ↦ rw (e, split_once) (rw (split_once-append a rest hs) refl)
]

module _ (out : Outside) (law : Documented out) where
  pub gateway_route-gateway_url :
      (port : ℕ) (route : Text) → gateway_route (gateway_url out port route) ≡ some route
  unfolding gateway_route gateway_url strip_prefix before is_loopback text_eq
  gateway_route-gateway_url port route =
      let host = codes "127.0.0.1:" ++ out.decimal port in
      let split =
        ap (split_once b'/')
          (sym (append_assoc (codes "127.0.0.1:") (out.decimal port) (codes "/u/" ++ route)))
        ∙ split_once-append host (codes "u/" ++ route) (
            NoSlash-append (codes "127.0.0.1:") (out.decimal port) loopback-NoSlash
              (law.no_slash port)) in
      ap
        (λ o.
          o >>= λ x. if is_loopback (before b':' x.0) then strip_prefix (codes "u/") x.1 else none)
        split

  Extends-record_upstream :
      (gateway : GatewayConfig) (route url : Text)
      → free_or_same gateway url route ≡ true
      → Extends gateway (record_upstream route url gateway)
  unfolding record_upstream get_upstream free_or_same
  Extends-record_upstream gateway route url h k u found = elim (Bool-cases (text_eq k route)) [
    | inl e ↦ same_route ((text_eq_iff k route).0 e)
    | inr e ↦
        find_route-put_route_other k route url gateway.servers
          (λ q. differ ((text_eq_iff k route).1 q) e)
        ∙ found
  ]
    where
      differ : {b : Bool} → b ≡ true → b ≡ false → ⊥
      differ p q = cc (p, q)

      same_route : k ≡ route → find_route k (put_route route url gateway.servers) ≡ some u
      same_route q =
          let at_route = subst (λ r. find_route r gateway.servers ≡ some u) q found in
          let same : url ≡ u = sym ((text_eq_iff u url).0 (rw (at_route, free_or_same) at h)) in
          subst (λ r. find_route r (put_route route url gateway.servers) ≡ some u) (sym q)
            (find_route-put_route route url gateway.servers ∙ ap some same)

  detach_of_url :
      (gateway : GatewayConfig) (fs : Fields) (u : Text)
      → lookup (codes "command") fs >>= as_str ≡ none
      → lookup (codes "url") fs ≡ some (string u)
      → (detach_entry out (object fs) gateway).0
        ≡ object (detach_route out fs gateway (gateway_route u)).0
  unfolding detach_entry detach_by as_str
  detach_of_url gateway fs u no_command is =
      ap (λ o. object (detach_by out fs gateway o (lookup (codes "url") fs >>= as_str)).0)
        no_command
      ∙ ap (λ o. object (detach_by out fs gateway none (o >>= as_str)).0) is

  detach_found :
      (fs : Fields) (gateway : GatewayConfig) (route u : Text)
      → get_upstream gateway route ≡ some u
      → (detach_route out fs gateway (some route)).0 ≡ insert (codes "url") (string u) fs
  unfolding detach_route
  detach_found fs gateway route u h = rw (h, detach_route) refl

  pub url_back :
      (name url : Text) (obj : Fields) (port : ℕ) (gateway : GatewayConfig)
      → lookup (codes "command") obj >>= as_str ≡ none
      → lookup (codes "url") obj ≡ some (string url)
      → gateway_route url ≡ none
      → let o = attach_url_entry out name obj port gateway url in
        Extends gateway o.1
        × ((final : GatewayConfig)
            → Extends o.1 final
            → (detach_entry out (object o.0.0) final).0 ≡ object obj)
  unfolding attach_url_entry record_upstream get_upstream
  url_back name url obj port gateway no_command is foreign =
      let (route, found, free) = allocate_route-free out.decimal gateway name url law.injective in
      rw (foreign, attach_url_entry)
        (rw found (
          Extends-record_upstream gateway route url free,
          λ final ext.
              detach_of_url final (insert (codes "url") (string (gateway_url out port route)) obj)
                (gateway_url out port route)
                (ap (λ o. o >>= as_str)
                    (lookup-insert_other (codes "url") (codes "command")
                      (string (gateway_url out port route)) obj (λ q. cc))
                  ∙ no_command)
                (lookup-insert (codes "url") (string (gateway_url out port route)) obj)
              ∙ ap
                  (λ r.
                    object
                      (detach_route out
                        (insert (codes "url") (string (gateway_url out port route)) obj) final r).0)
                  (gateway_route-gateway_url port route)
              ∙ ap object (
                  detach_found _ final route url
                    (ext route url (find_route-put_route route url gateway.servers))
                  ∙ insert-insert (codes "url") (string url) (string (gateway_url out port route))
                      obj
                  ∙ insert_same (codes "url") (string url) obj is),
        ))
