-- ===== src/Clients/Files.antt =====
-- Reading, replacing and reporting one configuration file: crates/cli/src/clients.rs.
use mcpglass.Base.{
  ℕ, Option, none, some, List, [], ◌∷◌, ◌++◌, Bool, true, false, any, if◌then◌else◌,
}
use mcpglass.Base.Text.{Text, codes, text_eq}
use mcpglass.Json.{Value, unwrap_or}
use mcpglass.Clients.Table.{GatewayConfig}
use mcpglass.Clients.Entry.{Outcome, changed, unchanged, skipped, Outside}
use mcpglass.Clients.Document.{ServerReport, has_any_servers, transform_attach, transform_detach}
pub mod Atomic

pub data Client : Type 0 where
  claude_code : Client
  claude_desktop : Client
  cursor : Client

pub data Op : Type 0 where
  attach : Op
  detach : Op

-- What becomes of a call that can fail: `Result` with the text of the error.
pub data Attempt (A : Type 0) : Type 0 where
  ok : A → Attempt A
  failed : Text → Attempt A

-- The files by their paths.
abbrev pub Disk : Type 0
Disk = Text → Option Text

unfoldable pub put : Text → Option Text → Disk → Disk
put path content disk = λ p. if text_eq p path then content else disk p

-- The file system and the crates: how each call on a path ends (`none` is success), what a failed
-- write leaves in its file, and the readers and printers of JSON and TOML.
pub record Machine : Type 0 where
  pub join : Text → Text → Text
  pub file_name : Text → Option Text
  pub with_file_name : Text → Text → Text
  pub process_id : Text
  pub now_text : Text
  pub create_dir_all : Text → Option Text
  pub copy : Text → Option Text
  pub write : Text → Option (Text × Text)
  pub rename : Text → Option Text
  pub read_error : Text → Option Text
  pub parse_json : Text → Attempt Value
  pub print_json : Value → Attempt Text
  pub print_toml : GatewayConfig → Attempt Text
  pub parent : Text → Option Text

pub data FileStatus : Type 0 where
  not_found : FileStatus
  unreadable : Text → FileStatus
  no_servers : FileStatus
  write_error : Text → FileStatus
  written : List ServerReport → Text → FileStatus
  dry : List ServerReport → FileStatus
  no_change : List ServerReport → FileStatus

pub record Ready : Type 0 where
  pub doc : Value
  pub servers : List ServerReport
  pub is_changed : Bool

pub data FilePlan : Type 0 where
  terminal : FileStatus → FilePlan
  ready : Ready → FilePlan

unfoldable pub is_change : ServerReport → Bool
is_change r = elim r.outcome [ changed ↦ true | unchanged ↦ false | skipped _ ↦ false ]

module _ (m : Machine) where
  unfoldable pub rename_temp : Text → Text → Text → Disk → Attempt (Unit {0}) × Disk
  rename_temp temp path text disk = elim (m.rename path) [
    | none ↦ (ok tt, put path (some text) (put temp none disk))
    | some e ↦ (failed e, put temp none disk)
  ]

  -- A temporary file in the same directory, and its renaming.
  unfoldable pub replace_file : Text → Text → Text → Disk → Attempt (Unit {0}) × Disk
  replace_file temp path text disk = elim (m.write temp) [
    | none ↦ rename_temp temp path text (put temp (some text) disk)
    | some (e, part) ↦ (failed e, put temp (some part) disk)
  ]

  unfoldable pub temp_path : Text → Text → Text
  temp_path default path =
      m.with_file_name path
        (unwrap_or (m.file_name path) default ++ (codes ".tmp-" ++ m.process_id))

  unfoldable pub write_json_file : Text → Value → Disk → Attempt (Unit {0}) × Disk
  write_json_file path doc disk = elim (m.print_json doc) [
    | failed e ↦ (failed e, disk)
    | ok text ↦ replace_file (temp_path (codes "config.json") path) path (text ++ b'\n' ∷ []) disk
  ]

  unfoldable pub slug : Client → Text
  slug claude_code = codes "claude-code"
  slug claude_desktop = codes "claude-desktop"
  slug cursor = codes "cursor"

  unfoldable pub backup_path : Text → Client → Text → Text
  backup_path path client backup_dir = m.join backup_dir (
      slug client
      ++ (codes "-"
          ++ (unwrap_or (m.file_name path) (codes "config.json")
              ++ (codes "-" ++ (m.now_text ++ codes ".json")))))

  unfoldable pub after_backup : Text → Text → Value → Disk → Attempt Text × Disk
  after_backup backup path doc disk =
      let o = write_json_file path doc (put backup (disk path) disk) in
      (elim o.0 [ ok _ ↦ ok backup | failed e ↦ failed e ], o.1)

  unfoldable pub backup_and_write : Text → Value → Client → Text → Disk → Attempt Text × Disk
  backup_and_write path doc client backup_dir disk = elim (m.create_dir_all backup_dir) [
    | some e ↦ (failed e, disk)
    | none ↦
        let backup = backup_path path client backup_dir in
        elim (m.copy backup) [
          | some e ↦ (failed e, disk)
          | none ↦ after_backup backup path doc disk
        ]
  ]

  module _ (out : Outside) where
    unfoldable pub transform_doc :
        Op → Text → ℕ → Value → GatewayConfig → (Value × List ServerReport) × GatewayConfig
    transform_doc attach exe port doc gateway =
        let o = transform_attach out exe port doc gateway in ((o.0, o.1.1), o.1.0)
    transform_doc detach exe port doc gateway = (transform_detach out gateway doc, gateway)

    unfoldable pub plan_doc :
        Op → Text → ℕ → GatewayConfig → Attempt Value → FilePlan × GatewayConfig
    plan_doc op exe port gateway (failed e) =
        (terminal (unreadable (codes "invalid JSON: " ++ e)), gateway)
    plan_doc op exe port gateway (ok doc) =
        let o = transform_doc op exe port doc gateway in
        if has_any_servers doc
        then (
          ready (record { doc = o.0.0; servers = o.0.1; is_changed = any is_change o.0.1 }),
          o.1,
        )
        else (terminal no_servers, gateway)

    unfoldable pub plan_text :
        Op → Text → ℕ → GatewayConfig → Option Text → Text → FilePlan × GatewayConfig
    plan_text op exe port gateway (some e) text =
        (terminal (unreadable (codes "read failed: " ++ e)), gateway)
    plan_text op exe port gateway none text = plan_doc op exe port gateway (m.parse_json text)

    unfoldable pub transform_file :
        Op → Text → Text → ℕ → GatewayConfig → Disk → FilePlan × GatewayConfig
    transform_file op path exe port gateway disk = elim (disk path) [
      | none ↦ (terminal not_found, gateway)
      | some text ↦ plan_text op exe port gateway (m.read_error path) text
    ]

  unfoldable pub status_of : List ServerReport → Attempt Text → FileStatus
  status_of servers (ok backup) = written servers backup
  status_of servers (failed e) = write_error e

  unfoldable pub commit_file : FilePlan → Client → Text → Text → Bool → Disk → FileStatus × Disk
  commit_file (terminal status) client path backup_dir dry_run disk = (status, disk)
  commit_file (ready r) client path backup_dir dry_run disk =
      let o = backup_and_write path r.doc client backup_dir disk in
      if r.is_changed
      then if dry_run then (dry r.servers, disk) else (status_of r.servers o.0, o.1)
      else (no_change r.servers, disk)
