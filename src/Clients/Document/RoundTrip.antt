-- ===== src/Clients/Document/RoundTrip.antt =====
-- Detaching a document that was attached.
use mcpglass.Base.{ℕ, Option, none, some, List, [], ◌≡◌, refl, ap, ◌∙◌, true}
use mcpglass.Base.Text.{Text, codes}
use mcpglass.Json.{Value, object, Fields, lookup}
use mcpglass.Clients.Table.{GatewayConfig}
use mcpglass.Clients.Table.Laws.{Extends-refl}
use mcpglass.Clients.Entry.{Outside, is_mcpglass, detach_entry}
use mcpglass.Clients.Entry.Plain.{Documented, Plain}
use mcpglass.Clients.Entry.RoundTrip.{attach-detach}
use mcpglass.Clients.Document.{
  at_object, each_field, servers_of, projects_of, for_each_servers_map, ServerReport,
  attach_reported, attach_servers, transform_attach, detach_servers, transform_detach,
}
use mcpglass.Clients.Document.Undo.{
  map_object, map_key, map_fields, AllFields, AllFields-map, at_object-pure, at_key-pure,
  each_field-pure, Undone, at_object-Undone, each_field-Undone, at_key-Undone,
}
use mcpglass.Clients.Document.Keys.{at_keys-Undone}

-- Every entry of the document's servers, and of its projects' servers, is plain.
abbrev pub PlainServers : Outside → Value → Type 0
PlainServers out (object servers) = AllFields (Plain out) servers
PlainServers out _ = Unit

abbrev pub PlainHolder : Outside → Value → Type 0
PlainHolder out (object fs) =
    (servers : Value) → lookup (codes "mcpServers") fs ≡ some servers → PlainServers out servers
PlainHolder out _ = Unit

abbrev pub PlainProjects : Outside → Value → Type 0
PlainProjects out (object projects) = AllFields (λ path. PlainHolder out) projects
PlainProjects out _ = Unit

abbrev pub PlainDocument : Outside → Value → Type 0
PlainDocument out (object fs) =
    PlainHolder out (object fs)
    × ((projects : Value)
        → lookup (codes "projects") fs ≡ some projects
        → PlainProjects out projects)
PlainDocument out _ = Unit

-- A traversal of the servers with a pure function of each entry.
module _ (f : Value → Value) where
  abbrev pure_servers : Fields → Fields
  pure_servers = map_key (codes "mcpServers") (map_object (map_fields f))

  abbrev pure_projects : Fields → Fields
  pure_projects = map_key (codes "projects") (map_object (map_fields (map_object pure_servers)))

module _ (out : Outside) where
  abbrev restored : GatewayConfig → Value → Value
  restored gateway entry = (detach_entry out entry gateway).0

  detach_servers-pure :
      (gateway : GatewayConfig) (scope : Option Text) (fs : Fields) (s : List ServerReport)
      → (servers_of (detach_servers out gateway) scope fs s).0 ≡ pure_servers (restored gateway) fs
  unfolding detach_servers
  detach_servers-pure gateway scope =
      at_key-pure (codes "mcpServers") _ _
        (at_object-pure _ _ (each_field-pure _ (restored gateway) (λ k v s. refl)))

  transform_detach-pure :
      (gateway : GatewayConfig) (doc : Value)
      → (transform_detach out gateway doc).0
        ≡ map_object
            (λ fs. pure_projects (restored gateway) (pure_servers (restored gateway) fs))
            doc
  unfolding transform_detach for_each_servers_map
  transform_detach-pure gateway doc =
      at_object-pure _ _
        (λ fs s.
          at_key-pure (codes "projects") _ _
            (at_object-pure _ _ (
              each_field-pure _ (map_object (pure_servers (restored gateway)))
                (λ path. at_object-pure _ _ (detach_servers-pure gateway (some path)))))
            _ _
          ∙ ap (pure_projects (restored gateway)) (detach_servers-pure gateway none fs s))
        doc []

module _ (out : Outside) (law : Documented out) (exe : Text) (own : is_mcpglass out exe ≡ true)
    (port : ℕ) where
  abbrev State : Type 0
  State = GatewayConfig × List ServerReport

  abbrev Undoes : {X : Type 0} → (X → State → X × State) → (GatewayConfig → X → X) → X → Type 0
  Undoes f d x = Undone (λ (s : State). s.0) f d x

  entry-Undone :
      (scope : Option Text) (name : Text) (entry : Value)
      → Plain out name entry
      → Undoes (attach_reported out exe port scope name) (restored out) entry
  unfolding attach_reported
  entry-Undone scope name entry plain s = attach-detach out law exe own port name entry s.0 plain

  entries-Undone :
      (scope : Option Text) (v : Value)
      → PlainServers out v
      → Undoes
          (at_object (attach_servers out exe port scope))
          (λ g. map_object (map_fields (restored out g)))
          v
  unfolding attach_servers
  entries-Undone scope =
      at_object-Undone (λ s. s.0) (attach_servers out exe port scope)
        (λ g. map_fields (restored out g)) (PlainServers out)
        (λ fs plain.
          each_field-Undone (λ s. s.0) (attach_reported out exe port scope) (restored out) fs
            (AllFields-map _ _ (entry-Undone scope) fs plain))

  servers-Undone :
      (scope : Option Text) (fs : Fields)
      → PlainHolder out (object fs)
      → Undoes
          (servers_of (attach_servers out exe port) scope)
          (λ g. pure_servers (restored out g))
          fs
  servers-Undone scope fs plain =
      at_key-Undone (λ s. s.0) (codes "mcpServers") (at_object (attach_servers out exe port scope))
        (λ g. map_object (map_fields (restored out g))) fs
        (λ v at. entries-Undone scope v (plain v at))

  project-Undone :
      (path : Text) (v : Value)
      → PlainHolder out v
      → Undoes
          (at_object (servers_of (attach_servers out exe port) (some path)))
          (λ g. map_object (pure_servers (restored out g)))
          v
  project-Undone path =
      at_object-Undone (λ s. s.0) (servers_of (attach_servers out exe port) (some path))
        (λ g. pure_servers (restored out g)) (PlainHolder out) (servers-Undone (some path))

  abbrev each_project : Fields → State → Fields × State
  each_project =
      each_field (λ path. at_object (servers_of (attach_servers out exe port) (some path)))

  projects-Undone :
      (v : Value)
      → PlainProjects out v
      → Undoes
          (at_object each_project)
          (λ g. map_object (map_fields (map_object (pure_servers (restored out g)))))
          v
  projects-Undone =
      at_object-Undone (λ s. s.0) each_project
        (λ g. map_fields (map_object (pure_servers (restored out g)))) (PlainProjects out)
        (λ fs plain.
          each_field-Undone (λ s. s.0)
            (λ path. at_object (servers_of (attach_servers out exe port) (some path)))
            (λ g. map_object (pure_servers (restored out g))) fs
            (AllFields-map _ _ project-Undone fs plain))

  document-Undone :
      (doc : Value)
      → PlainDocument out doc
      → Undoes
          (for_each_servers_map (attach_servers out exe port))
          (λ g.
            map_object (λ fs. pure_projects (restored out g) (pure_servers (restored out g) fs)))
          doc
  unfolding for_each_servers_map
  document-Undone =
      at_object-Undone (λ s. s.0)
        (λ fs s.
          let o = servers_of (attach_servers out exe port) none fs s in
          projects_of (attach_servers out exe port) o.0 o.1)
        (λ g fs. pure_projects (restored out g) (pure_servers (restored out g) fs))
        (PlainDocument out)
        (λ fs plain.
          at_keys-Undone (codes "mcpServers") (codes "projects") (λ e. cc) _ _ (λ s. s.0)
            (λ g. map_object (map_fields (restored out g)))
            (λ g. map_object (map_fields (map_object (pure_servers (restored out g))))) fs
            (servers-Undone none fs plain.0)
            (at_key-Undone (λ s. s.0) (codes "projects") (at_object each_project)
              (λ g. map_object (map_fields (map_object (pure_servers (restored out g))))) fs
              (λ v at. projects-Undone v (plain.1 v at))))

  -- If the crates and the standard library do what they document and the executable is one of
  -- mcpglass: attaching a document of which no entry is routed through mcpglass yet, and then
  -- detaching it with the table that attaching has left, gives the document back as it was. That is
  -- so for its own servers and for those of its projects, and for what is no server at all. Of the
  -- commands, no name is `--` and no arguments are the empty array.
  pub transform_attach-transform_detach :
      (doc : Value) (gateway : GatewayConfig)
      → PlainDocument out doc
      → let o = transform_attach out exe port doc gateway in
        (transform_detach out o.1.0 o.0).0 ≡ doc
  unfolding transform_attach
  transform_attach-transform_detach doc gateway plain =
      let o = transform_attach out exe port doc gateway in
      transform_detach-pure out o.1.0 o.0
      ∙ (document-Undone doc plain (gateway, [])).1 o.1.0 (Extends-refl o.1.0)
