-- ===== src/Json.antt =====
-- `serde_json::Value`, as far as the program reads it, and what the program asks of `serde_json`.
-- The crate is no part of the repository: its parser and its printer are the parameter `Serde`.
use mcpglass.Base.{List, [], ◌∷◌, Bool, true, false, if◌then◌else◌, Option, none, some}
use mcpglass.Base.Text.{Text, Bytes, text_eq}

-- A number carries the text that `to_string` prints for it. The fields of an object stand in the
-- order in which `values` and `keys` give them, each key once.
mutual
  pub data Value : Type 0 where
    null : Value
    bool : Bool → Value
    number : Text → Value
    string : Text → Value
    array : Items → Value
    object : Fields → Value

  pub data Items : Type 0 where
    nil : Items
    cons : Value → Items → Items

  pub data Fields : Type 0 where
    end : Fields
    field : Text → Value → Fields → Fields

-- `serde_json::from_slice` and `serde_json::to_string`.
pub record Serde : Type 0 where
  pub from_slice : Bytes → Option Value
  pub to_string : Value → Text

unfoldable pub lookup : Text → Fields → Option Value
lookup k end = none
lookup k (field j v fs) = if text_eq j k then some v else lookup k fs

-- `Value::get` with a string index: `None` for anything but an object.
unfoldable pub get : Text → Value → Option Value
unfolding lookup
get k (object fs) = lookup k fs
get k _ = none

unfoldable pub as_str : Value → Option Text
as_str (string s) = some s
as_str _ = none

unfoldable pub as_array : Value → Option Items
as_array (array xs) = some xs
as_array _ = none

unfoldable pub is_object : Value → Bool
is_object (object _) = true
is_object _ = false

-- `Option::and_then`, `Option::unwrap_or`.
infixl 5 ◌>>=◌
abbrev pub ◌>>=◌ {ℓ κ} : {A : Type ℓ} {B : Type κ} → Option A → (A → Option B) → Option B
none >>= f = none
some a >>= f = f a

abbrev pub unwrap_or {ℓ} : {A : Type ℓ} → Option A → A → A
unwrap_or none d = d
unwrap_or (some a) d = a

-- `value.get(k).and_then(|v| v.as_str())`.
unfoldable pub get_str : Text → Value → Option Text
unfolding get as_str
get_str k v = do x ← get k v; as_str x

unfoldable pub to_values : Items → List Value
to_values nil = []
to_values (cons v vs) = v ∷ to_values vs
