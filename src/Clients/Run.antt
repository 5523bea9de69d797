-- ===== src/Clients/Run.antt =====
-- `run` of crates/cli/src/clients.rs: the phases of `attach` and `detach` over all target files.
use mcpglass.Base.{
  ℕ, Option, none, some, List, [], ◌∷◌, ◌++◌, Bool, true, false, not, any, ◌||◌, ◌&&◌,
  if◌then◌else◌,
}
use mcpglass.Base.Text.{Text, codes, text_eq}
use mcpglass.Json.{Value}
use mcpglass.Clients.Table.{GatewayConfig}
use mcpglass.Clients.Entry.{Outside}
use mcpglass.Clients.Files.{
  Client, claude_code, claude_desktop, cursor, Op, Attempt, ok, failed, Disk, Machine, FileStatus,
  unreadable, write_error, FilePlan, replace_file, temp_path, transform_file, commit_file,
}
pub mod Phases

pub record Roots : Type 0 where
  pub home : Text
  pub config : Text

-- What `run` asks of its surroundings, and how it is called.
pub record Call : Type 0 where
  pub op : Op
  pub target : Text
  pub project : Option Text
  pub dry_run : Bool
  pub gateway_port : ℕ
  pub current_exe : Option Text
  pub roots : Option Roots
  pub backup_dir : Text
  pub gateway_path : Option Text
  -- `toml::from_str`.
  pub from_str : Text → Option GatewayConfig
  -- `gateway != gateway_before`, the comparison of two ordered maps.
  pub differs : GatewayConfig → GatewayConfig → Bool

unfoldable pub parse_target : Text → Option (List Client)
parse_target target =
    if text_eq target (codes "all")
    then some (claude_code ∷ claude_desktop ∷ cursor ∷ [])
    else if text_eq target (codes "claude-code")
    then some (claude_code ∷ [])
    else if text_eq target (codes "claude-desktop")
    then some (claude_desktop ∷ [])
    else if text_eq target (codes "cursor")
    then some (cursor ∷ [])
    else none

unfoldable pub is_write_error : FileStatus → Bool
is_write_error (write_error _) = true
is_write_error _ = false

unfoldable pub is_unreadable : FileStatus → Bool
is_unreadable (unreadable _) = true
is_unreadable _ = false

unfoldable pub exit_code : List FileStatus → Bool → ℕ
exit_code reports explicit =
    if any is_write_error reports || (explicit && any is_unreadable reports) then 1 else 0

pub record Planned : Type 0 where
  pub client : Client
  pub path : Text
  pub plan : FilePlan

-- `GatewayConfig::load`.
unfoldable pub load : Call → Text → Disk → Option GatewayConfig
load call path disk = elim (disk path) [ none ↦ none | some text ↦ call.from_str text ]

-- `GatewayConfig::load_or_default`.
unfoldable pub load_or_default : Call → Text → Disk → GatewayConfig
load_or_default call path disk = elim (load call path disk) [
  | none ↦ record { servers = [] }
  | some table ↦ table
]

-- The table before the run, an empty one where there is no data directory.
unfoldable pub gateway_before : Call → Disk → GatewayConfig
gateway_before call disk = elim call.gateway_path [
  | none ↦ record { servers = [] }
  | some path ↦ load_or_default call path disk
]

module _ (m : Machine) (out : Outside) where
  unfoldable pub config_path : Client → Roots → Option Text → Text
  config_path claude_code roots (some dir) = m.join dir (codes ".mcp.json")
  config_path claude_code roots none = m.join roots.home (codes ".claude.json")
  config_path claude_desktop roots project =
      m.join (m.join roots.config (codes "Claude")) (codes "claude_desktop_config.json")
  config_path cursor roots project = m.join (m.join roots.home (codes ".cursor")) (codes "mcp.json")

  -- Phase 1: nothing is written.
  unfoldable pub plan_files :
      Call → Text → Roots → Bool → Disk → List Client → GatewayConfig → List Planned × GatewayConfig
  plan_files call exe roots explicit disk [] gateway = ([], gateway)
  plan_files call exe roots explicit disk (c ∷ cs) gateway =
      let path = config_path c roots call.project in
      let o = transform_file m out call.op path exe call.gateway_port gateway disk in
      let skipped = plan_files call exe roots explicit disk cs gateway in
      let rest = plan_files call exe roots explicit disk cs o.1 in
      let planned : List Planned × GatewayConfig =
        (record { client = c; path = path; plan = o.0 } ∷ rest.0, rest.1) in
      elim (disk path) [ none ↦ (if explicit then planned else skipped) | some _ ↦ planned ]

  -- `GatewayConfig::save`.
  unfoldable pub save_text : Text → Attempt Text → Disk → Attempt (Unit {0}) × Disk
  save_text path (failed e) disk = (failed e, disk)
  save_text path (ok text) disk =
      replace_file m (temp_path m (codes "gateway.toml") path) path text disk

  -- `create_dir_all(parent)`, unless there is none.
  unfoldable pub make_parent : Option Text → Option Text
  make_parent none = none
  make_parent (some dir) = if text_eq dir [] then none else m.create_dir_all dir

  unfoldable pub save : GatewayConfig → Option Text → Disk → Attempt (Unit {0}) × Disk
  save gateway none disk = (failed (codes "cannot locate a data dir for gateway.toml"), disk)
  save gateway (some path) disk = elim (make_parent (m.parent path)) [
    | some e ↦ (failed e, disk)
    | none ↦ save_text path (m.print_toml gateway) disk
  ]

  -- Phase 2: the table, if it changed.
  unfoldable pub save_changed :
      Call → GatewayConfig → GatewayConfig → Disk → Attempt (Unit {0}) × Disk
  save_changed call before gateway disk =
      let o = save gateway call.gateway_path disk in
      if not call.dry_run && call.differs gateway before then o else (ok tt, disk)

  -- Phase 3: the client files.
  unfoldable pub commit_files : Call → List Planned → Disk → List FileStatus × Disk
  commit_files call [] disk = ([], disk)
  commit_files call (p ∷ ps) disk =
      let o = commit_file m p.plan p.client p.path call.backup_dir call.dry_run disk in
      let rest = commit_files call ps o.1 in (o.0 ∷ rest.0, rest.1)

  unfoldable pub finish_run : Call → Bool → List Planned → Attempt (Unit {0}) × Disk → ℕ × Disk
  finish_run call explicit plans (failed e, disk) = (1, disk)
  finish_run call explicit plans (ok _, disk) =
      let o = commit_files call plans disk in (exit_code o.0 explicit, o.1)

  unfoldable pub run_phases : Call → List Client → Text → Roots → Disk → ℕ × Disk
  run_phases call clients exe roots disk =
      let before = gateway_before call disk in
      let explicit = not (text_eq call.target (codes "all")) in
      let o = plan_files call exe roots explicit disk clients before in
      finish_run call explicit o.0 (save_changed call before o.1 disk)

  unfoldable pub run : Call → Disk → ℕ × Disk
  run call disk = elim (parse_target call.target) [
    | none ↦ (2, disk)
    | some clients ↦ elim call.current_exe [
      | none ↦ (1, disk)
      | some exe ↦ elim call.roots [
        | none ↦ (1, disk)
        | some roots ↦ run_phases call clients exe roots disk
      ]
    ]
  ]
