-- ===== src/Policy/Fingerprint/Sees.antt =====
-- What the fingerprints of a tool depend on.
use mcpglass.Base.{◌≡◌, Bool-cases, inl, inr}
use mcpglass.Base.Text.{Text, codes, text_eq, text_eq_iff}
use mcpglass.Json.{Serde, Value, null, object, Fields, get}
use mcpglass.Policy.Libs.{Libs}
use mcpglass.Policy.Canonical.Stable.{
  Same, same, in_object, SameFields, no_fields, keep, swap, steps, chain, write_canonical-Same,
}
use mcpglass.Policy.Fingerprint.{
  get_or_null, fingerprint_subset_v1, fingerprint_subset_v2, fingerprint_subset_v3, set_field,
  set_key, hash_subset, fingerprint_tool_versions,
}

-- The two tools have the same value at a key, up to the order of keys below it; a key that is
-- missing counts as a null.
abbrev pub Agree : Text → Value → Value → Type 0
Agree k t u = Same (get_or_null k t) (get_or_null k u)

-- The five keys that the fingerprints see.
pub record SameTool (t u : Value) : Type 0 where
  pub name : Agree (codes "name") t u
  pub description : Agree (codes "description") t u
  pub input_schema : Agree (codes "inputSchema") t u
  pub annotations : Agree (codes "annotations") t u
  pub output_schema : Agree (codes "outputSchema") t u

module _ {t u : Value} (s : SameTool t u) where
  v1-Same : Same (fingerprint_subset_v1 t) (fingerprint_subset_v1 u)
  unfolding fingerprint_subset_v1
  v1-Same = in_object (keep s.name (keep s.description (keep s.input_schema no_fields)))

  v2-Same : Same (fingerprint_subset_v2 t) (fingerprint_subset_v2 u)
  unfolding fingerprint_subset_v1 fingerprint_subset_v2 set_key set_field text_eq
  v2-Same =
      in_object
        (keep s.name (keep s.description (keep s.input_schema (keep s.annotations no_fields))))

  v3-Same : Same (fingerprint_subset_v3 t) (fingerprint_subset_v3 u)
  unfolding fingerprint_subset_v1 fingerprint_subset_v2 fingerprint_subset_v3 set_key set_field
      text_eq
  v3-Same = in_object (
      keep s.name (
        keep s.description
          (keep s.input_schema (keep s.annotations (keep s.output_schema no_fields)))))

-- Two tools that agree in `name`, `description`, `inputSchema`, `annotations` and `outputSchema`,
-- up to the order of keys at any depth, have the same fingerprints under every version, whatever
-- else they hold.
pub fingerprint_tool_versions-SameTool :
    (serde : Serde) (libs : Libs) (t u : Value)
    → SameTool t u
    → fingerprint_tool_versions serde libs t ≡ fingerprint_tool_versions serde libs u
unfolding fingerprint_tool_versions hash_subset
fingerprint_tool_versions-SameTool serde libs t u s = rw (
  write_canonical-Same serde _ _ (v1-Same s),
  write_canonical-Same serde _ _ (v2-Same s),
  write_canonical-Same serde _ _ (v3-Same s),
)

lookup-SameFields :
    {fs gs : Fields} (k : Text)
    → SameFields fs gs
    → Same (get_or_null k (object fs)) (get_or_null k (object gs))
unfolding get_or_null get
lookup-SameFields k no_fields = same null
lookup-SameFields k (keep {k = j} s t) = elim (Bool-cases (text_eq j k)) [
  | inl e ↦ rw e s
  | inr e ↦ rw e (lookup-SameFields k t)
]
lookup-SameFields k (swap {k = i} {j = j} ne) = elim (Bool-cases (text_eq i k)) [
  | inl e ↦ elim (Bool-cases (text_eq j k)) [
    | inl f ↦ absurd (ne (cc ((text_eq_iff i k).0 e, (text_eq_iff j k).0 f)))
    | inr f ↦ rw (e, f) (same _)
  ]
  | inr e ↦ rw e (same _)
]
lookup-SameFields k (steps s t) = chain (lookup-SameFields k s) (lookup-SameFields k t)

-- The order in which a tool definition lists its keys, at the top or at any depth, makes no
-- difference to its fingerprints under any version.
pub fingerprint_tool_versions-SameFields :
    (serde : Serde) (libs : Libs) (fs gs : Fields)
    → SameFields fs gs
    → fingerprint_tool_versions serde libs (object fs)
      ≡ fingerprint_tool_versions serde libs (object gs)
fingerprint_tool_versions-SameFields serde libs fs gs s =
    fingerprint_tool_versions-SameTool serde libs (object fs) (object gs) (record {
      name = lookup-SameFields (codes "name") s;
      description = lookup-SameFields (codes "description") s;
      input_schema = lookup-SameFields (codes "inputSchema") s;
      annotations = lookup-SameFields (codes "annotations") s;
      output_schema = lookup-SameFields (codes "outputSchema") s;
    })
