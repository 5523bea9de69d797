-- ===== src/Clients/Entry/RoundTrip.antt =====
-- Detaching an entry that was attached.
use mcpglass.Base.{ℕ, Option, none, some, ◌≡◌, refl, true, ap, ◌∙◌}
use mcpglass.Base.Text.{Text, codes}
use mcpglass.Json.{Value, string, array, object, null, bool, number, Fields, as_str, lookup, ◌>>=◌}
use mcpglass.Clients.Table.{GatewayConfig}
use mcpglass.Clients.Table.Laws.{Extends, Extends-refl}
use mcpglass.Clients.Entry.{
  Outcome, Outside, is_mcpglass, attach_by, attach_entry, detach_by, detach_entry,
}
use mcpglass.Clients.Entry.Plain.{Documented, Plain, PlainBy, string_of}
use mcpglass.Clients.Entry.Stdio.{stdio_back}
use mcpglass.Clients.Entry.Url.{url_back}

module _ (out : Outside) (law : Documented out) (exe : Text) (own : is_mcpglass out exe ≡ true)
    (port : ℕ) where
  -- The table only grows, and with it, or with one that has grown further, detaching gives the
  -- entry back.
  abbrev pub Restores : Value → GatewayConfig → (Value × Outcome) × GatewayConfig → Type 0
  Restores entry gateway o =
      Extends gateway o.1
      × ((final : GatewayConfig) → Extends o.1 final → (detach_entry out o.0.0 final).0 ≡ entry)

  attach_by-Restores :
      (name : Text) (obj : Fields) (gateway : GatewayConfig) (command url : Option Text)
      → lookup (codes "command") obj >>= as_str ≡ command
      → lookup (codes "url") obj >>= as_str ≡ url
      → PlainBy out name (lookup (codes "args") obj) command url
      → let o = attach_by out name obj exe port gateway command url in
        Restores (object obj) gateway ((object o.0.0, o.0.1), o.1)
  unfolding attach_by detach_entry detach_by
  attach_by-Restores name obj gateway (some command) url is at (foreign, args, dash) = (
    Extends-refl gateway,
    λ final _.
        stdio_back out law exe own name command obj final (string_of _ command is) foreign dash
          args,
  )
  attach_by-Restores name obj gateway none (some url) is at foreign =
      url_back out law name url obj port gateway is (string_of _ url at) foreign
  attach_by-Restores name obj gateway none none is at plain = (
    Extends-refl gateway,
    λ final _.
        ap (λ o. object (detach_by out obj final o (lookup (codes "url") obj >>= as_str)).0) is
        ∙ ap (λ o. object (detach_by out obj final none o).0) at,
  )

  -- If the crates and the standard library do what they document and the executable is one of
  -- mcpglass: attaching an entry that is not routed through mcpglass yet keeps every recorded
  -- route, and detaching it, with the table then or a larger one, gives the entry back as it was.
  -- Of a command, the name is not `--` and the arguments are not the empty array.
  pub attach-detach :
      (name : Text) (entry : Value) (gateway : GatewayConfig)
      → Plain out name entry
      → Restores entry gateway (attach_entry out name entry exe port gateway)
  unfolding attach_entry detach_entry
  attach-detach name (object obj) gateway plain =
      attach_by-Restores name obj gateway (lookup (codes "command") obj >>= as_str)
        (lookup (codes "url") obj >>= as_str) refl refl plain
  attach-detach name null gateway plain = (Extends-refl gateway, λ final _. refl)
  attach-detach name (bool b) gateway plain = (Extends-refl gateway, λ final _. refl)
  attach-detach name (number n) gateway plain = (Extends-refl gateway, λ final _. refl)
  attach-detach name (string s) gateway plain = (Extends-refl gateway, λ final _. refl)
  attach-detach name (array xs) gateway plain = (Extends-refl gateway, λ final _. refl)
