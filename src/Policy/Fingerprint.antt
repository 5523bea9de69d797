-- ===== src/Policy/Fingerprint.antt =====
-- Tool fingerprints and the server identity of crates/policy/src/lib.rs.
pub mod Sees
use mcpglass.Base.{List, [], ◌∷◌, Option, none, some, true, false}
use mcpglass.Base.Text.{Text, codes, text_eq}
use mcpglass.Json.{
  Serde, Value, null, string, array, object, Items, nil, cons, Fields, end, field, get, as_array,
  get_str, to_values, ◌>>=◌, unwrap_or,
}
use mcpglass.Policy.Libs.{Libs}
use mcpglass.Policy.Canonical.{write_canonical, to_hex}

pub record ToolFingerprints : Type 0 where
  pub v1 : Text
  pub v2 : Text
  pub v3 : Text

-- `tool.get(k).cloned().unwrap_or(Value::Null)`.
unfoldable pub get_or_null : Text → Value → Value
get_or_null k tool = unwrap_or (get k tool) null

-- The fields of the three subsets: `json!`, and then a field more with each version.
unfoldable pub fingerprint_subset_v1 : Value → Value
fingerprint_subset_v1 tool = object (
    field (codes "name") (get_or_null (codes "name") tool) (
      field (codes "description") (get_or_null (codes "description") tool)
        (field (codes "inputSchema") (get_or_null (codes "inputSchema") tool) end)))

-- `subset[k] = v` on an object: the field is replaced, or added behind the others.
unfoldable pub set_field : Text → Value → Fields → Fields
set_field k v end = field k v end
set_field k v (field j w fs) = elim (text_eq j k) [
  | true ↦ field j v fs
  | false ↦ field j w (set_field k v fs)
]

unfoldable pub set_key : Text → Value → Value → Value
set_key k v (object fs) = object (set_field k v fs)
set_key k v other = other

unfoldable pub fingerprint_subset_v2 : Value → Value
fingerprint_subset_v2 tool =
    set_key (codes "annotations") (get_or_null (codes "annotations") tool)
      (fingerprint_subset_v1 tool)

unfoldable pub fingerprint_subset_v3 : Value → Value
fingerprint_subset_v3 tool =
    set_key (codes "outputSchema") (get_or_null (codes "outputSchema") tool)
      (fingerprint_subset_v2 tool)

module _ (serde : Serde) (libs : Libs) where
  unfoldable pub hash_subset : Value → Text
  hash_subset subset = to_hex (libs.sha256 (write_canonical serde subset))

  unfoldable pub fingerprint_tool : Value → Text
  fingerprint_tool tool = hash_subset (fingerprint_subset_v1 tool)

  unfoldable pub fingerprint_tool_versions : Value → ToolFingerprints
  fingerprint_tool_versions tool = record {
    v1 = hash_subset (fingerprint_subset_v1 tool);
    v2 = hash_subset (fingerprint_subset_v2 tool);
    v3 = hash_subset (fingerprint_subset_v3 tool);
  }

  -- The tools with a name, each with its fingerprints.
  unfoldable pub named_tools : Items → List (Text × ToolFingerprints)
  named_tools nil = []
  named_tools (cons tool tools) =
      let rest = named_tools tools in
      elim (get_str (codes "name") tool) [
        | none ↦ rest
        | some name ↦ (name, fingerprint_tool_versions tool) ∷ rest
      ]

  unfoldable pub tools_of : Value → Option Items
  tools_of response = get (codes "result") response >>= get (codes "tools") >>= as_array

  unfoldable pub fingerprints_from_tools_list_versioned : Value → List (Text × ToolFingerprints)
  fingerprints_from_tools_list_versioned response = elim (tools_of response) [
    | none ↦ []
    | some tools ↦ named_tools tools
  ]

  -- The first version alone.
  unfoldable pub v1_fingerprints : Items → List (Text × Text)
  v1_fingerprints nil = []
  v1_fingerprints (cons tool tools) =
      let rest = v1_fingerprints tools in
      elim (get_str (codes "name") tool) [
        | none ↦ rest
        | some name ↦ (name, fingerprint_tool tool) ∷ rest
      ]

  unfoldable pub fingerprints_from_tools_list : Value → List (Text × Text)
  fingerprints_from_tools_list response = elim (tools_of response) [
    | none ↦ []
    | some tools ↦ v1_fingerprints tools
  ]

pub data ServerIdentity : Type 0 where
  stdio : List Text → ServerIdentity
  http : Text → ServerIdentity

unfoldable pub transport : ServerIdentity → Text
transport (stdio argv) = codes "stdio"
transport (http url) = codes "http"

unfoldable pub program : ServerIdentity → Option Text
program (stdio []) = none
program (stdio (p ∷ argv)) = some p
program (http url) = none

abbrev pub strings : List Text → Items
strings [] = nil
strings (s ∷ ss) = cons (string s) (strings ss)

abbrev pub or_null : Option Text → Value
or_null none = null
or_null (some s) = string s

unfoldable pub identity_subset : ServerIdentity → Value
identity_subset (stdio argv) = object (
    field (codes "transport") (string (codes "stdio")) (
      field (codes "program") (or_null (program (stdio argv)))
        (field (codes "argv") (array (strings argv)) end)))
identity_subset (http url) =
    object
      (field (codes "transport") (string (codes "http")) (field (codes "url") (string url) end))

unfoldable pub server_identity_hash : Serde → Libs → ServerIdentity → Text
server_identity_hash serde libs identity = hash_subset serde libs (identity_subset identity)
