-- ===== src/Clients/Document.antt =====
-- Attaching and detaching a whole document: its `mcpServers`, and those of its `projects`.
pub mod Keys
pub mod RoundTrip
pub mod Undo
use mcpglass.Base.{ℕ, Option, none, some, List, [], ◌∷◌, ◌++◌, Bool, false, if◌then◌else◌, ◌||◌}
use mcpglass.Base.Text.{Text, codes, text_eq}
use mcpglass.Json.{Value, object, Fields, end, field, get, is_object}
use mcpglass.Clients.Table.{GatewayConfig}
use mcpglass.Clients.Entry.{Outcome, Outside, attach_entry, detach_entry}

module _ {S : Type 0} where
  -- `as_object_mut`.
  unfoldable pub at_object : (Fields → S → Fields × S) → Value → S → Value × S
  at_object f (object fs) s = let o = f fs s in (object o.0, o.1)
  at_object f v s = (v, s)

  -- `get_mut(k)`.
  unfoldable pub at_key : Text → (Value → S → Value × S) → Fields → S → Fields × S
  at_key k f end s = (end, s)
  at_key k f (field j v fs) s =
      let here = f v s in
      let rest = at_key k f fs s in
      if text_eq j k then (field j here.0 fs, here.1) else (field j v rest.0, rest.1)

  -- `iter_mut()`.
  unfoldable pub each_field : (Text → Value → S → Value × S) → Fields → S → Fields × S
  each_field f end s = (end, s)
  each_field f (field k v fs) s =
      let o = f k v s in let rest = each_field f fs o.1 in (field k o.0 rest.0, rest.1)

  abbrev pub servers_of :
      (Option Text → Fields → S → Fields × S) → Option Text → Fields → S → Fields × S
  servers_of f scope = at_key (codes "mcpServers") (at_object (f scope))

  abbrev pub projects_of : (Option Text → Fields → S → Fields × S) → Fields → S → Fields × S
  projects_of f =
      at_key (codes "projects")
        (at_object (each_field (λ path. at_object (servers_of f (some path)))))

  unfoldable pub for_each_servers_map :
      (Option Text → Fields → S → Fields × S) → Value → S → Value × S
  for_each_servers_map f =
      at_object (λ fs s. let o = servers_of f none fs s in projects_of f o.0 o.1)

-- `get("mcpServers").and_then(Value::as_object).is_some()`.
unfoldable pub has_servers : Value → Bool
has_servers v = elim (get (codes "mcpServers") v) [ none ↦ false | some w ↦ is_object w ]

unfoldable pub any_project : Fields → Bool
any_project end = false
any_project (field path v fs) = has_servers v || any_project fs

unfoldable pub has_any_servers : Value → Bool
has_any_servers doc = has_servers doc || elim (get (codes "projects") doc) [
  | some (object projects) ↦ any_project projects
  | _ ↦ false
]

pub record ServerReport : Type 0 where
  pub name : Text
  pub scope : Option Text
  pub outcome : Outcome

module _ (out : Outside) (exe : Text) (port : ℕ) where
  -- One entry, with the table and the reports so far.
  unfoldable pub attach_reported :
      Option Text
      → Text
      → Value
      → GatewayConfig × List ServerReport
      → Value × (GatewayConfig × List ServerReport)
  attach_reported scope name entry s =
      let o = attach_entry out name entry exe port s.0 in
      (o.0.0, (o.1, s.1 ++ record { name = name; scope = scope; outcome = o.0.1 } ∷ []))

  unfoldable pub attach_servers :
      Option Text
      → Fields
      → GatewayConfig × List ServerReport
      → Fields × (GatewayConfig × List ServerReport)
  attach_servers scope = each_field (attach_reported scope)

  unfoldable pub transform_attach :
      Value → GatewayConfig → Value × (GatewayConfig × List ServerReport)
  transform_attach doc gateway = for_each_servers_map attach_servers doc (gateway, [])

module _ (out : Outside) (gateway : GatewayConfig) where
  unfoldable pub detach_servers :
      Option Text → Fields → List ServerReport → Fields × List ServerReport
  detach_servers scope = each_field (λ name entry reports.
      let o = detach_entry out entry gateway in
      (o.0, reports ++ record { name = name; scope = scope; outcome = o.1 } ∷ []))

  unfoldable pub transform_detach : Value → Value × List ServerReport
  transform_detach doc = for_each_servers_map detach_servers doc []
