-- ===== src/Clients/Table.antt =====
-- `GatewayConfig` of crates/cli/src/gateway_config.rs, and `serde_json::Map` where the rewriting
-- changes it.
pub mod Laws
use mcpglass.Base.{Option, none, some, List, [], ◌∷◌, if◌then◌else◌}
use mcpglass.Base.Text.{Text, text_eq}
use mcpglass.Json.{Value, Fields, end, field}

-- The table from a route to the upstream URL. No operation here sees its order.
pub record GatewayConfig : Type 0 where
  pub servers : List (Text × Text)

unfoldable pub find_route : Text → List (Text × Text) → Option Text
find_route name [] = none
find_route name ((route, url) ∷ rest) =
    if text_eq route name then some url else find_route name rest

-- `GatewayConfig::get`.
unfoldable pub get_upstream : GatewayConfig → Text → Option Text
get_upstream gateway name = find_route name gateway.servers

unfoldable pub put_route : Text → Text → List (Text × Text) → List (Text × Text)
put_route name url [] = (name, url) ∷ []
put_route name url ((route, old) ∷ rest) =
    if text_eq route name then (route, url) ∷ rest else (route, old) ∷ put_route name url rest

-- `gateway.servers.insert(route, url)`.
unfoldable pub record_upstream : Text → Text → GatewayConfig → GatewayConfig
record_upstream route url gateway = record { servers = put_route route url gateway.servers }

-- `Map::insert` with `preserve_order`: a key that is there keeps its place.
unfoldable pub insert : Text → Value → Fields → Fields
insert k v end = field k v end
insert k v (field j w fs) = if text_eq j k then field j v fs else field j w (insert k v fs)
