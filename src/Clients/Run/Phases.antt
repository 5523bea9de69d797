-- ===== src/Clients/Run/Phases.antt =====
-- What a run leaves alone when it fails, and when it is dry.
use mcpglass.Base.{
  arith, some, Option-cases, List, [], ◌∷◌, ◌≡◌, ◌≢◌, refl, ap, ◌∙◌, Bool, true, Bool-cases, not,
  ◌&&◌, inl, inr,
}
use mcpglass.Base.Text.{Text, codes, text_eq}
use mcpglass.Clients.Table.{GatewayConfig}
use mcpglass.Clients.Entry.{Outside}
use mcpglass.Clients.Files.{
  Client, Attempt, ok, failed, Disk, Machine, FilePlan, terminal, ready, replace_file, temp_path,
  commit_file,
}
use mcpglass.Clients.Files.Atomic.{Replaces-failed, replace_file-Replaces}
use mcpglass.Clients.Run.{
  gateway_before, Roots, Call, parse_target, Planned, plan_files, save_text, save, make_parent,
  save_changed, commit_files, finish_run, run_phases, run,
}

module _ (m : Machine) (out : Outside) where
  commit_file-dry :
      (plan : FilePlan) (client : Client) (path backup_dir : Text) (disk : Disk)
      → (commit_file m plan client path backup_dir true disk).1 ≡ disk
  unfolding commit_file
  commit_file-dry (terminal status) client path backup_dir disk = refl
  commit_file-dry (ready r) client path backup_dir disk = ground arith

  commit_files-dry :
      (call : Call) (plans : List Planned) (disk : Disk)
      → call.dry_run ≡ true
      → (commit_files m out call plans disk).1 ≡ disk
  unfolding commit_files
  commit_files-dry call [] disk dry = refl
  commit_files-dry call (p ∷ ps) disk dry =
      rw dry (
        commit_files-dry call ps _ dry
        ∙ commit_file-dry p.plan p.client p.path call.backup_dir disk)

  save_changed-dry :
      (call : Call) (before gateway : GatewayConfig) (disk : Disk)
      → call.dry_run ≡ true
      → save_changed m out call before gateway disk ≡ (ok tt, disk)
  unfolding save_changed
  save_changed-dry call before gateway disk dry = rw (dry, save_changed) refl

  run_phases-dry :
      (call : Call) (clients : List Client) (exe : Text) (roots : Roots) (disk : Disk)
      → call.dry_run ≡ true
      → (run_phases m out call clients exe roots disk).1 ≡ disk
  unfolding run_phases finish_run
  run_phases-dry call clients exe roots disk dry =
      let before = gateway_before call disk in
      let explicit = not (text_eq call.target (codes "all")) in
      let o = plan_files m out call exe roots explicit disk clients before in
      ap (λ r. (finish_run m out call explicit o.0 r).1) (save_changed-dry call before o.1 disk dry)
      ∙ commit_files-dry call o.0 disk dry

  -- A dry run changes no file.
  pub run-dry : (call : Call) (disk : Disk) → call.dry_run ≡ true → (run m out call disk).1 ≡ disk
  unfolding run
  run-dry call disk dry = elim (Option-cases (parse_target call.target)) [
    | inl e ↦ rw (e, run) refl
    | inr (clients, e) ↦ elim (Option-cases call.current_exe) [
      | inl f ↦ rw (e, run) (rw f refl)
      | inr (exe, f) ↦ elim (Option-cases call.roots) [
        | inl g ↦ rw (e, run) (rw f (rw g refl))
        | inr (roots, g) ↦
            rw (e, run) (rw f (rw g (run_phases-dry call clients exe roots disk dry)))
      ]
    ]
  ]

  save_text-failed :
      (path text : Text) (o : Attempt Text) (disk : Disk) (err p : Text)
      → temp_path m (codes "gateway.toml") path ≢ path
      → (save_text m out path o disk).0 ≡ failed err
      → p ≢ temp_path m (codes "gateway.toml") path
      → (save_text m out path o disk).1 p ≡ disk p
  unfolding save_text
  save_text-failed path text (failed e) disk err p differ fails h = refl
  save_text-failed path text (ok t) disk err p differ fails h =
      let temp = temp_path m (codes "gateway.toml") path in
      Replaces-failed temp path t disk (replace_file m temp path t disk) err p
        (replace_file-Replaces m temp path t disk differ) fails h

  save-failed :
      (gateway : GatewayConfig) (path : Text) (disk : Disk) (err p : Text)
      → temp_path m (codes "gateway.toml") path ≢ path
      → (save m out gateway (some path) disk).0 ≡ failed err
      → p ≢ temp_path m (codes "gateway.toml") path
      → (save m out gateway (some path) disk).1 p ≡ disk p
  unfolding save
  save-failed gateway path disk err p differ fails h =
      elim (Option-cases (make_parent m out (m.parent path))) [
        | inl e ↦
            rw (e, save)
              (save_text-failed path [] (m.print_toml gateway) disk err p differ
                (rw (e, save) at fails) h)
        | inr (made, e) ↦ rw (e, save) refl
      ]

  save_changed-failed :
      (call : Call) (before gateway : GatewayConfig) (path : Text) (disk : Disk) (err p : Text)
      → call.gateway_path ≡ some path
      → temp_path m (codes "gateway.toml") path ≢ path
      → (save_changed m out call before gateway disk).0 ≡ failed err
      → p ≢ temp_path m (codes "gateway.toml") path
      → (save_changed m out call before gateway disk).1 p ≡ disk p
  unfolding save_changed
  save_changed-failed call before gateway path disk err p is differ fails h =
      elim (Bool-cases (not call.dry_run && call.differs gateway before)) [
        | inl e ↦
            rw (e, save_changed)
              (rw is (
                save-failed gateway path disk err p differ
                  (rw is at (rw (e, save_changed) at fails)) h))
        | inr e ↦ rw (e, save_changed) refl
      ]

  finish_run-failed :
      (call : Call) (explicit : Bool) (plans : List Planned) (o : Attempt (Unit {0}) × Disk)
      (err : Text)
      → o.0 ≡ failed err
      → finish_run m out call explicit plans o ≡ (1, o.1)
  unfolding finish_run
  finish_run-failed call explicit plans (failed e, disk) err h = refl
  finish_run-failed call explicit plans (ok _, disk) err h = cc

  -- If the table of routes has a place, with another path for its temporary file, and saving it
  -- fails: the run ends with the exit code 1, and no file but that temporary one has changed; so no
  -- client points at a route that is not recorded.
  pub run_phases-aborts :
      (call : Call) (clients : List Client) (exe : Text) (roots : Roots) (disk : Disk)
      (path err : Text)
      → call.gateway_path ≡ some path
      → temp_path m (codes "gateway.toml") path ≢ path
      → let before = gateway_before call disk in
        let explicit = not (text_eq call.target (codes "all")) in
        (save_changed m out call before
            (plan_files m out call exe roots explicit disk clients before).1
            disk).0
          ≡ failed err
        → ((run_phases m out call clients exe roots disk).0 ≡ 1)
          × ((p : Text)
              → p ≢ temp_path m (codes "gateway.toml") path
              → (run_phases m out call clients exe roots disk).1 p ≡ disk p)
  unfolding run_phases
  run_phases-aborts call clients exe roots disk path err is differ fails =
      let before = gateway_before call disk in
      let explicit = not (text_eq call.target (codes "all")) in
      let o = plan_files m out call exe roots explicit disk clients before in
      let aborts =
        finish_run-failed call explicit o.0 (save_changed m out call before o.1 disk) err fails in
      (
        ap (λ r. r.0) aborts,
        λ p h.
            ap (λ r. r.1 p) aborts
            ∙ save_changed-failed call before o.1 path disk err p is differ fails h,
      )
