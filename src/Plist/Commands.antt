-- ===== src/Plist/Commands.antt =====
-- `cmdInstallPlist`, `cmdMigratePlist` and `cmdEnsureUserPlist`: what becomes of the plist, of its
-- backups and of the loaded agent. What is printed is left out; `fatalf` ends a command with an error.
pub mod Kept
pub mod Again
use touchid_agent.Prelude.{
  ℕ, suc, Bool, true, false, not, ◌&&◌, List, [], ◌∷◌, Option, none, some, Result, ok, err,
  if◌then◌else◌,
}
use touchid_agent.Text.{Text, codes, equal, is_empty}
use touchid_agent.Plist.{
  ParsedPlist, PlistMode, mode_unknown, mode_old_style, mode_socket_activated, mode_missing,
  classify, Reading, read_plist, extract_run_flags, socket_from_old_args, resolve_binary_path,
  plist_label,
}
use touchid_agent.Plist.Render.{render_plist}

pub data PlistError : Type 0 where
  cannot_read cannot_mkdir cannot_read_old cannot_back_up cannot_write cannot_reload :
      Text → PlistError
  foreign_label : Text → PlistError
  no_plist is_old_style unexpected_layout : PlistError

pub data Exit : Type 0 where
  finished : Exit
  fatal : PlistError → Exit

-- The plist's contents, if there is one, the backups' contents, the latest first, and how often the
-- agent was loaded anew.
pub record Disk : Type 0 where
  pub plist : Option Text
  pub backups : List Text
  pub loads : ℕ

-- What the system makes of a file's contents, the paths below the home directory, the running binary,
-- and which of the system's calls fail.
pub record System : Type 0 where
  pub convert : Text → Reading
  pub default_socket_path : Text
  pub default_log_path : Text
  pub executable : Option Text
  pub links : Text → Option Text
  pub mkdir_error : Option Text
  pub read_error : Option Text
  pub backup_error : Option Text
  pub write_error : Option Text
  pub reload_error : Option Text

pub data EnsureAction : Type 0 where
  install already_ok leave_old_style leave_unknown : EnsureAction

by_mode : PlistMode → EnsureAction
by_mode mode_socket_activated = already_ok
by_mode mode_old_style = leave_old_style
by_mode _ = leave_unknown

unfoldable pub decide_ensure_action : Option ParsedPlist → EnsureAction
unfolding by_mode
decide_ensure_action none = install
decide_ensure_action (some p) = by_mode (classify (some p))

is_foreign : ParsedPlist → Bool
is_foreign p = not (is_empty p.label) && not (equal p.label plist_label)

-- `a`, or `b` where it is empty
abbrev or_else : Text → Text → Text
or_else a b = if is_empty a then b else a

module _ (system : System) where
  reading_of : Option Text → Option Reading
  reading_of none = none
  reading_of (some contents) = some (system.convert contents)

  after_reload : Option Text → Disk → Exit × Disk
  after_reload none d = (finished, record d { loads = suc d.loads })
  after_reload (some e) d = (fatal (cannot_reload e), d)

  reload : Bool → Disk → Exit × Disk
  unfolding after_reload
  reload no_reload d = if no_reload then (finished, d) else after_reload system.reload_error d

  write : Option Text → Text → Bool → Disk → Exit × Disk
  unfolding reload
  write (some e) contents no_reload d = (fatal (cannot_write e), d)
  write none contents no_reload d = reload no_reload (record d { plist = some contents })

  audit_args : Text → List Text
  audit_args audit_log = if is_empty audit_log then [] else codes "-audit-log" ∷ audit_log ∷ []

  write_new : Option Text → Option ParsedPlist → Text → Bool → Disk → Exit × Disk
  unfolding write audit_args
  write_new (some e) existing audit_log no_reload d = (fatal (cannot_mkdir e), d)
  write_new none existing audit_log no_reload d =
      write system.write_error
        (render_plist (resolve_binary_path existing system.executable system.links)
          system.default_socket_path system.default_log_path (audit_args audit_log))
        no_reload d

  install_by_mode : PlistMode → Option ParsedPlist → Text → Bool → Disk → Exit × Disk
  unfolding write_new
  install_by_mode mode_socket_activated existing audit_log no_reload d = (finished, d)
  install_by_mode mode_old_style existing audit_log no_reload d = (fatal is_old_style, d)
  install_by_mode mode_unknown existing audit_log no_reload d = (fatal unexpected_layout, d)
  install_by_mode mode_missing existing audit_log no_reload d =
      write_new system.mkdir_error existing audit_log no_reload d

  install_over : Result Text (Option ParsedPlist) → Text → Bool → Disk → Exit × Disk
  unfolding install_by_mode is_foreign
  install_over (err e) audit_log no_reload d = (fatal (cannot_read e), d)
  install_over (ok none) audit_log no_reload d =
      install_by_mode mode_missing none audit_log no_reload d
  install_over (ok (some p)) audit_log no_reload d =
      if is_foreign p
      then (fatal (foreign_label p.label), d)
      else install_by_mode (classify (some p)) (some p) audit_log no_reload d

  -- `cmdInstallPlist`
  unfoldable pub install_plist : Text → Bool → Disk → Exit × Disk
  unfolding install_over reading_of
  install_plist audit_log no_reload d =
      install_over (read_plist (reading_of d.plist)) audit_log no_reload d

  pub new_socket : ParsedPlist → Text
  new_socket p = or_else (socket_from_old_args p.program_arguments) system.default_socket_path

  pub new_log : ParsedPlist → Text
  new_log p = or_else p.standard_error_path (or_else p.standard_out_path system.default_log_path)

  -- What a plist is migrated to.
  unfoldable pub migrated : ParsedPlist → Text
  unfolding new_socket new_log
  migrated p =
      render_plist (resolve_binary_path (some p) system.executable system.links) (new_socket p)
        (new_log p) (extract_run_flags p.program_arguments)

  back_up : Option Text → Text → Text → Bool → Disk → Exit × Disk
  unfolding write
  back_up (some e) old contents no_reload d = (fatal (cannot_back_up e), d)
  back_up none old contents no_reload d =
      write system.write_error contents no_reload (record d { backups = old ∷ d.backups })

  rewrite_plist : Option Text → Option Text → Text → Bool → Bool → Disk → Exit × Disk
  unfolding back_up
  rewrite_plist (some e) old contents dry_run no_reload d = (fatal (cannot_read_old e), d)
  rewrite_plist none none contents dry_run no_reload d = (fatal no_plist, d)
  rewrite_plist none (some old) contents dry_run no_reload d =
      if dry_run then (finished, d) else back_up system.backup_error old contents no_reload d

  migrate_by_mode : PlistMode → ParsedPlist → Bool → Bool → Disk → Exit × Disk
  unfolding rewrite_plist
  migrate_by_mode mode_socket_activated p dry_run no_reload d = (finished, d)
  migrate_by_mode mode_unknown p dry_run no_reload d = (fatal unexpected_layout, d)
  migrate_by_mode _ p dry_run no_reload d =
      rewrite_plist system.read_error d.plist (migrated p) dry_run no_reload d

  migrate_over : Result Text (Option ParsedPlist) → Bool → Bool → Disk → Exit × Disk
  unfolding migrate_by_mode is_foreign
  migrate_over (err e) dry_run no_reload d = (fatal (cannot_read e), d)
  migrate_over (ok none) dry_run no_reload d = (fatal no_plist, d)
  migrate_over (ok (some p)) dry_run no_reload d =
      if is_foreign p
      then (fatal (foreign_label p.label), d)
      else migrate_by_mode (classify (some p)) p dry_run no_reload d

  -- `cmdMigratePlist`
  unfoldable pub migrate_plist : Bool → Bool → Disk → Exit × Disk
  unfolding migrate_over reading_of
  migrate_plist dry_run no_reload d =
      migrate_over (read_plist (reading_of d.plist)) dry_run no_reload d

  ensure_by : EnsureAction → Disk → Exit × Disk
  unfolding install_plist
  ensure_by install d = install_plist [] false d
  ensure_by _ d = (finished, d)

  ensure_over : Result Text (Option ParsedPlist) → Disk → Exit × Disk
  unfolding ensure_by
  ensure_over (err e) d = (finished, d)
  ensure_over (ok existing) d = ensure_by (decide_ensure_action existing) d

  -- `cmdEnsureUserPlist`
  unfoldable pub ensure_user_plist : Disk → Exit × Disk
  unfolding ensure_over reading_of
  ensure_user_plist d = ensure_over (read_plist (reading_of d.plist)) d
