-- ===== src/Tests/Sample.antt =====
-- Stand-ins for the code outside the repository, and a request, for the tests.
use mcpglass.Base.{◌+◌, [], ◌∷◌, ◌++◌, true, none, some, if◌then◌else◌}
use mcpglass.Base.Text.{Bytes, codes, text_eq, starts_with}
use mcpglass.Json.{Serde, Value, null, number, string, array, object, nil, cons, Fields, end, field}
use mcpglass.Policy.Libs.{Regex, Libs}
use mcpglass.Policy.Config.{Policy, enforce}
use mcpglass.Security.Decide.{Encode}

abbrev pub arguments_fields : Fields
arguments_fields =
    field (codes "path") (string (codes "/tmp"))
      (field (codes "keys") (array (cons (string (codes "AKIA0123456789ABCDEF")) nil)) end)

-- `tools/call` of a tool that writes, with an access key among its arguments.
abbrev pub call : Value
call = object (
    field (codes "id") (number (codes "7")) (
      field (codes "method") (string (codes "tools/call")) (
        field (codes "params")
          (object (
            field (codes "name") (string (codes "fs_write"))
              (field (codes "arguments") (object arguments_fields) end)))
          end)))

abbrev pub failure : Value
failure = object (field (codes "id") (number (codes "7")) (field (codes "error") null end))

abbrev pub call_line : Bytes
call_line = codes "call"

abbrev pub failure_line : Bytes
failure_line = codes "failure"

-- Two lines are JSON, and printing is coarse.
abbrev pub serde : Serde
serde = record {
  from_slice = λ b.
      if text_eq b call_line
      then some call
      else if text_eq b failure_line
      then some failure
      else none;
  to_string = λ v. elim v [ string s ↦ b'"' ∷ s ++ b'"' ∷ [] | number n ↦ n | _ ↦ codes "?" ];
}

-- A pattern that matches the whole of a text which begins like an access key.
abbrev pub regex : Regex
regex = record {
  find_iter = λ t. if starts_with (codes "AKIA") t then t ∷ [] else [];
  replace_all = λ f t. if starts_with (codes "AKIA") t then f t else t;
}

abbrev pub libs : Libs
libs = record {
  regex_new = λ p. some regex;
  regex_unwrap = λ p. regex;
  decimal = λ n. (b'0' + n) ∷ [];
  debug = λ s. s;
  sha256 = λ s. s;
}

abbrev pub encode : Encode
encode = record { to_vec = λ v. codes "{}"; int_text = λ n. codes "0" }

-- A policy that enforces, denies one family of tools and allows two.
abbrev pub policy : Policy
policy = record {
  mode = enforce;
  allow = codes "fs_read" ∷ codes "fs_write" ∷ [];
  deny = codes "net_*" ∷ codes "fs_w*" ∷ [];
  secret_scan = true;
  custom_secret_patterns = [];
  custom_compiled = [];
}
