-- ===== src/Clients/Entry.antt =====
-- Attaching and detaching one server entry.
pub mod Plain
pub mod RoundTrip
pub mod Stdio
pub mod Url
use mcpglass.Base.{ℕ, Option, none, some, [], ◌++◌, ◌+◌, leb, map, ◌&&◌, Bool, false, if◌then◌else◌}
use mcpglass.Base.Text.{Text, codes, text_eq}
use mcpglass.Json.{
  Value, string, array, object, Items, nil, cons, Fields, as_str, as_array, lookup, ◌>>=◌,
  unwrap_or,
}
use mcpglass.Clients.Table.{GatewayConfig, get_upstream, record_upstream, insert}
use mcpglass.Clients.Route.{gateway_route, allocate_route}

pub data Outcome : Type 0 where
  changed : Outcome
  unchanged : Outcome
  skipped : Text → Outcome

-- What the rewriting takes from outside: the file stem of a path on the platform, the text of a
-- number, and `Map::remove`, which may move a field when it is not the last.
pub record Outside : Type 0 where
  pub file_stem : Text → Option Text
  pub decimal : ℕ → Text
  pub remove : Text → Fields → Fields

-- `eq_ignore_ascii_case`, by the lower case of the ASCII letters.
unfoldable pub to_ascii_lowercase : ℕ → ℕ
to_ascii_lowercase c = if leb b'A' c && leb c b'Z' then c + 32 else c

unfoldable pub eq_ignore_ascii_case : Text → Text → Bool
eq_ignore_ascii_case a b = text_eq (map to_ascii_lowercase a) (map to_ascii_lowercase b)

unfoldable pub is_mcpglass : Outside → Text → Bool
is_mcpglass out command = elim (out.file_stem command) [
  | none ↦ false
  | some stem ↦ eq_ignore_ascii_case stem (codes "mcpglass")
]

-- The first item of an array as a string.
unfoldable pub first_str : Items → Option Text
first_str nil = none
first_str (cons v vs) = as_str v

unfoldable pub is_str : Text → Value → Bool
is_str s v = elim (as_str v) [ none ↦ false | some t ↦ text_eq t s ]

-- `&args[sep + 1..]` for the first `sep` at which the separator stands.
unfoldable pub after_separator : Items → Option Items
after_separator nil = none
after_separator (cons v vs) = if is_str (codes "--") v then some vs else after_separator vs

unfoldable pub tail_items : Items → Items
tail_items nil = nil
tail_items (cons v vs) = vs

-- The arguments that are there: none, an array, or a shape that is left alone.
unfoldable pub orig_args_of : Option Value → Option Items
orig_args_of none = some nil
orig_args_of (some v) = as_array v

abbrev pub wrap_args : Text → Text → Items → Items
wrap_args name command args = cons (string (codes "wrap")) (
    cons (string (codes "--name"))
      (cons (string name) (cons (string (codes "--")) (cons (string command) args))))

module _ (out : Outside) where
  unfoldable pub attach_args : Text → Text → Text → Option Items → Fields → Fields × Outcome
  attach_args name exe command none obj = (obj, skipped (codes "args is not an array"))
  attach_args name exe command (some args) obj = (
    insert (codes "args") (array (wrap_args name command args))
        (insert (codes "command") (string exe) obj),
    changed,
  )

  unfoldable pub attach_stdio_entry : Text → Fields → Text → Text → Fields × Outcome
  attach_stdio_entry name obj exe command =
      if is_mcpglass out command
      then (obj, unchanged)
      else attach_args name exe command (orig_args_of (lookup (codes "args") obj)) obj

  -- The URL of a route at the gateway.
  unfoldable pub gateway_url : ℕ → Text → Text
  gateway_url port route = codes "http://127.0.0.1:" ++ (out.decimal port ++ (codes "/u/" ++ route))

  unfoldable pub attach_url_entry :
      Text → Fields → ℕ → GatewayConfig → Text → (Fields × Outcome) × GatewayConfig
  attach_url_entry name obj port gateway url = elim (gateway_route url) [
    | some _ ↦ ((obj, unchanged), gateway)
    | none ↦
        let route = unwrap_or (allocate_route out.decimal gateway name url) [] in
        (
          (insert (codes "url") (string (gateway_url port route)) obj, changed),
          record_upstream route url gateway,
        )
  ]

  -- The entry by its `command` and its `url`, where they are strings.
  unfoldable pub attach_by :
      Text
      → Fields
      → Text
      → ℕ
      → GatewayConfig
      → Option Text
      → Option Text
      → (Fields × Outcome) × GatewayConfig
  attach_by name obj exe port gateway (some command) url =
      (attach_stdio_entry name obj exe command, gateway)
  attach_by name obj exe port gateway none (some url) = attach_url_entry name obj port gateway url
  attach_by name obj exe port gateway none none =
      ((obj, skipped (codes "no command or url")), gateway)

  unfoldable pub attach_entry :
      Text → Value → Text → ℕ → GatewayConfig → (Value × Outcome) × GatewayConfig
  attach_entry name (object obj) exe port gateway =
      let o =
        attach_by name obj exe port gateway (lookup (codes "command") obj >>= as_str)
          (lookup (codes "url") obj >>= as_str) in
      ((object o.0.0, o.0.1), o.1)
  attach_entry name entry exe port gateway = ((entry, skipped (codes "not an object")), gateway)

  -- `obj.remove("args")` or `obj.insert("args", ..)`, behind the restored command.
  unfoldable pub restore_args : Items → Fields → Fields
  restore_args nil obj = out.remove (codes "args") obj
  restore_args (cons v vs) obj = insert (codes "args") (array (cons v vs)) obj

  unfoldable pub detach_after : Fields → Option Items → Fields × Outcome
  detach_after obj none = (obj, skipped (codes "no `--` separator"))
  detach_after obj (some after) = elim (first_str after) [
    | none ↦ (obj, skipped (codes "nothing after `--`"))
    | some command ↦
        (restore_args (tail_items after) (insert (codes "command") (string command) obj), changed)
  ]

  unfoldable pub detach_args : Fields → Option Items → Fields × Outcome
  detach_args obj none = (obj, skipped (codes "mcpglass command without args"))
  detach_args obj (some args) = elim (first_str args) [
    | none ↦ (obj, skipped (codes "not a wrap invocation"))
    | some first ↦
        if text_eq first (codes "wrap")
        then detach_after obj (after_separator args)
        else (obj, skipped (codes "not a wrap invocation"))
  ]

  unfoldable pub detach_stdio_entry : Fields → Text → Fields × Outcome
  detach_stdio_entry obj command =
      if is_mcpglass out command
      then detach_args obj (lookup (codes "args") obj >>= as_array)
      else (obj, unchanged)

  unfoldable pub detach_route : Fields → GatewayConfig → Option Text → Fields × Outcome
  detach_route obj gateway none = (obj, unchanged)
  detach_route obj gateway (some route) = elim (get_upstream gateway route) [
    | some orig ↦ (insert (codes "url") (string orig) obj, changed)
    | none ↦ (obj, skipped (codes "no gateway.toml mapping to restore url"))
  ]

  unfoldable pub detach_by : Fields → GatewayConfig → Option Text → Option Text → Fields × Outcome
  detach_by obj gateway (some command) url = detach_stdio_entry obj command
  detach_by obj gateway none (some url) = detach_route obj gateway (gateway_route url)
  detach_by obj gateway none none = (obj, unchanged)

  unfoldable pub detach_entry : Value → GatewayConfig → Value × Outcome
  detach_entry (object obj) gateway =
      let o =
        detach_by obj gateway (lookup (codes "command") obj >>= as_str)
          (lookup (codes "url") obj >>= as_str) in
      (object o.0, o.1)
  detach_entry entry gateway = (entry, skipped (codes "not an object"))
