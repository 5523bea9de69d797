-- ===== src/Clients/Entry/Plain.antt =====
-- Entries that can be attached and restored.
use mcpglass.Base.{ℕ, Option, none, some, ◌≡◌, ◌≢◌, false, All}
use mcpglass.Base.Text.{Text, codes}
use mcpglass.Json.{
  Value, string, array, object, null, bool, number, nil, Fields, as_str, lookup, ◌>>=◌,
}
use mcpglass.Clients.Table.{insert}
use mcpglass.Clients.Route.{gateway_route}
use mcpglass.Clients.Entry.{Outside, is_mcpglass}

-- What is documented of the code outside: numbers have different texts without a slash, and a field
-- that was appended is removed without a trace.
pub record Documented (out : Outside) : Type 0 where
  pub injective : (m n : ℕ) → out.decimal m ≡ out.decimal n → m ≡ n
  pub no_slash : (n : ℕ) → All (λ c. c ≢ b'/') (out.decimal n)
  pub removes :
      (k : Text) (v : Value) (fs : Fields) → lookup k fs ≡ none → out.remove k (insert k v fs) ≡ fs

-- An entry that is not routed through mcpglass, and that can be told from one that is: a command
-- needs a name other than `--`, and arguments that are not the empty array.
abbrev pub PlainBy : Outside → Text → Option Value → Option Text → Option Text → Type 0
PlainBy out name args (some command) url =
    (is_mcpglass out command ≡ false) × (args ≢ some (array nil)) × (name ≢ codes "--")
PlainBy out name args none (some url) = gateway_route url ≡ none
PlainBy out name args none none = Unit

abbrev pub Plain : Outside → Text → Value → Type 0
Plain out name (object obj) =
    PlainBy out name (lookup (codes "args") obj) (lookup (codes "command") obj >>= as_str)
      (lookup (codes "url") obj >>= as_str)
Plain out name _ = Unit

pub string_of : (o : Option Value) (s : Text) → o >>= as_str ≡ some s → o ≡ some (string s)
unfolding as_str
string_of none s h = cc
string_of (some (string t)) s h = cc
string_of (some null) s h = cc
string_of (some (bool b)) s h = cc
string_of (some (number n)) s h = cc
string_of (some (array xs)) s h = cc
string_of (some (object fs)) s h = cc
