-- ===== src/Tests/Clients.antt =====
-- A document that is attached and detached.
use mcpglass.Base.{
  ◌++◌, false, ℕ, zero, suc, none, some, [], ◌∷◌, ◌≡◌, ◌≢◌, refl, subst, ap, true, All, arith,
  replicate, if◌then◌else◌, Bool-cases, inl, inr,
}
use mcpglass.Base.Text.{Text, codes, text_eq, text_eq_refl}
use mcpglass.Json.{Value, string, array, object, nil, cons, Fields, end, field, lookup, as_str}
use mcpglass.Clients.Table.{GatewayConfig, insert}
use mcpglass.Clients.Route.{free_or_same, gateway_route, strip_prefix, allocate_route}
use mcpglass.Clients.Route.Terminates.{allocate_route-free}
use mcpglass.Clients.Entry.{Outside, is_mcpglass, eq_ignore_ascii_case, to_ascii_lowercase}
use mcpglass.Clients.Entry.Plain.{Documented}
use mcpglass.Clients.Files.{Machine, Disk, put, attach, ok, claude_code, replace_file, temp_path}
use mcpglass.Clients.Files.Atomic.{Replaces, replace_file-Replaces}
use mcpglass.Clients.Run.{Roots, Call, save_changed, save, make_parent, run_phases}
use mcpglass.Clients.Run.Phases.{run_phases-aborts}
use mcpglass.Clients.Document.{transform_attach, transform_detach}
use mcpglass.Clients.Document.RoundTrip.{
  PlainServers, PlainProjects, PlainDocument, transform_attach-transform_detach,
}

abbrev remove_key : Text → Fields → Fields
remove_key k end = end
remove_key k (field j v fs) =
    let rest = remove_key k fs in if text_eq j k then fs else field j v rest

abbrev ones : ℕ → Text
ones n = replicate n b'1'

abbrev outside : Outside
outside = record { file_stem = λ path. some path; decimal = λ n. ones n; remove = remove_key }

ones_injective : (m n : ℕ) → ones m ≡ ones n → m ≡ n
ones_injective zero zero h = refl
ones_injective zero (suc n) h = cc
ones_injective (suc m) zero h = cc
ones_injective (suc m) (suc n) h = ap suc (ones_injective m n (cc h))

ones_lack_slash : (n : ℕ) → All (λ (c : ℕ). c ≢ b'/') (ones n)
ones_lack_slash zero = tt
ones_lack_slash (suc n) = ((λ h. omega (arith, h)), ones_lack_slash n)

remove_key-insert :
    (k : Text) (v : Value) (fs : Fields) → lookup k fs ≡ none → remove_key k (insert k v fs) ≡ fs
unfolding lookup insert
remove_key-insert k v end h = rw (text_eq_refl k) refl
remove_key-insert k v (field j w fs) h = elim (Bool-cases (text_eq j k)) [
  | inl e ↦ cc (rw (e, lookup) at h)
  | inr e ↦ rw (e, insert) (rw e (ap (field j w) (remove_key-insert k v fs (rw (e, lookup) at h))))
]

documented : Documented outside
documented = record {
  injective = ones_injective;
  no_slash = ones_lack_slash;
  removes = remove_key-insert;
}

abbrev exe : Text
exe = codes "mcpglass"

own : is_mcpglass outside exe ≡ true
unfolding is_mcpglass eq_ignore_ascii_case to_ascii_lowercase text_eq
own = refl

abbrev table : GatewayConfig
table = record { servers = (codes "api", codes "https://x") ∷ [] }

allocate_route-free_example :
    (route : Text) × (allocate_route outside.decimal table (codes "api") (codes "https://y")
      ≡ some route)
    × (free_or_same table (codes "https://y") route ≡ true)
allocate_route-free_example =
    allocate_route-free outside.decimal table (codes "api") (codes "https://y") ones_injective

-- One server with a command, one with a URL, and one of a project with the same name.
abbrev url_entry : Text → Value
url_entry url = object (field (codes "url") (string url) end)

abbrev command_entry : Value
command_entry = object (
    field (codes "command") (string (codes "npx"))
      (field (codes "args") (array (cons (string (codes "srv")) nil)) end))

abbrev servers : Value
servers =
    object
      (field (codes "fs") command_entry (field (codes "api") (url_entry (codes "https://y")) end))

abbrev project : Value
project =
    object
      (field (codes "mcpServers") (object (field (codes "api") (url_entry (codes "ftp")) end)) end)

abbrev projects : Value
projects = object (field (codes "/p") project end)

abbrev document : Value
document = object (field (codes "projects") projects (field (codes "mcpServers") servers end))

the_value : (P : Value → Type 0) (a b : Value) → P a → some a ≡ some b → P b
the_value P a b p e = subst P (inner e) p
  where
    inner : some a ≡ some b → a ≡ b
    inner e = cc

plain : PlainDocument outside document
unfolding lookup text_eq as_str gateway_route strip_prefix is_mcpglass eq_ignore_ascii_case
    to_ascii_lowercase
plain = (
  λ s at. the_value (PlainServers outside) servers s ((refl, λ e. cc, λ e. cc), (refl, tt)) at,
  λ p at.
      the_value (PlainProjects outside) projects p
        ((λ s at. the_value (PlainServers outside) _ s (refl, tt) at), tt) at,
)

transform_attach-transform_detach_example :
    (transform_detach outside
      (transform_attach outside exe 3 document table).1.0
      (transform_attach outside exe 3 document table).0).0
    ≡ document
transform_attach-transform_detach_example =
    transform_attach-transform_detach outside documented exe own 3 document table plain

-- A file system where the directory of the table cannot be made, and no file can be renamed.
abbrev machine : Machine
machine = record {
  join = λ a b. a ++ b'/' ∷ b;
  file_name = λ p. none;
  with_file_name = λ p n. n;
  process_id = codes "7";
  now_text = codes "0";
  create_dir_all = λ p. some (codes "denied");
  copy = λ p. none;
  write = λ p. none;
  rename = λ p. some (codes "busy");
  read_error = λ p. none;
  parse_json = λ t. ok document;
  print_json = λ v. ok (codes "{}");
  print_toml = λ g. ok (codes "[servers]");
  parent = λ p. some (codes "data");
}

abbrev disk : Disk
disk = put (codes "h/.claude.json") (some (codes "doc")) (λ p. none)

abbrev homes : Roots
homes = record { home = codes "h"; config = codes "c" }

-- Attaching one client.
abbrev call : Call
call = record {
  op = attach;
  target = codes "claude-code";
  project = none;
  dry_run = false;
  gateway_port = 3;
  current_exe = some exe;
  roots = some homes;
  backup_dir = codes "b";
  gateway_path = some (codes "t");
  from_str = λ text. some table;
  differs = λ a b. true;
}

replace_file-Replaces_example :
    Replaces
      (codes "t.tmp")
      (codes "t")
      (codes "x")
      disk
      (replace_file machine (codes "t.tmp") (codes "t") (codes "x") disk)
replace_file-Replaces_example =
    replace_file-Replaces machine (codes "t.tmp") (codes "t") (codes "x") disk (λ e. cc)

run_phases-aborts_example :
    ((run_phases machine outside call (claude_code ∷ []) exe homes disk).0 ≡ 1)
    × ((p : Text)
        → p ≢ temp_path machine (codes "gateway.toml") (codes "t")
        → (run_phases machine outside call (claude_code ∷ []) exe homes disk).1 p ≡ disk p)
unfolding save_changed save make_parent text_eq temp_path
run_phases-aborts_example =
    run_phases-aborts machine outside call (claude_code ∷ []) exe homes disk (codes "t")
      (codes "denied") refl (λ e. cc) refl
