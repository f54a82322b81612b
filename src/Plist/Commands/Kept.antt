-- ===== src/Plist/Commands/Kept.antt =====
-- The commands of plist_darwin.go on a plist that is there.
use touchid_agent.Prelude.{
  Bool, true, false, ◌∷◌, Option, none, some, Result, ok, err, ◌≡◌, ◌≢◌, ◌⊎◌, inl, inr, refl, arith,
  Bool-cases,
}
use touchid_agent.Text.{Text}
use touchid_agent.Plist.{
  ParsedPlist, PlistMode, mode_unknown, mode_old_style, mode_socket_activated, mode_missing,
  classify, Reading, read_plist, stat_failed, plutil_failed, not_json, decoded,
}
use touchid_agent.Plist.Commands.{
  Exit, Disk, System, reading_of, decide_ensure_action, by_mode, is_foreign, migrated, back_up,
  write, reload, after_reload, rewrite_plist, migrate_by_mode, migrate_over, migrate_plist,
  install_by_mode, install_over, install_plist, ensure_by, ensure_over, ensure_user_plist,
}

classify-some : (p : ParsedPlist) → classify (some p) ≢ mode_missing
unfolding classify
classify-some p h = ground arith

read-some : (r : Reading) → read_plist (some r) ≢ ok none
unfolding read_plist
read-some (stat_failed e) h = cc
read-some (plutil_failed e) h = cc
read-some (not_json e) h = cc
read-some (decoded raw) h = cc

module _ (system : System) where
  install_by_mode-kept :
      (m : PlistMode) (p : Option ParsedPlist) (audit_log : Text) (no_reload : Bool) (d : Disk)
      → m ≢ mode_missing
      → (install_by_mode system m p audit_log no_reload d).1 ≡ d
  unfolding install_by_mode
  install_by_mode-kept mode_socket_activated p audit_log no_reload d h = refl
  install_by_mode-kept mode_old_style p audit_log no_reload d h = refl
  install_by_mode-kept mode_unknown p audit_log no_reload d h = refl
  install_by_mode-kept mode_missing p audit_log no_reload d h = absurd (h refl)

  install_over-kept :
      (reading : Result Text (Option ParsedPlist)) (audit_log : Text) (no_reload : Bool) (d : Disk)
      → reading ≢ ok none
      → (install_over system reading audit_log no_reload d).1 ≡ d
  unfolding install_over
  install_over-kept (err e) audit_log no_reload d h = refl
  install_over-kept (ok none) audit_log no_reload d h = absurd (h refl)
  install_over-kept (ok (some p)) audit_log no_reload d h = elim (Bool-cases (is_foreign p)) [
    | inl f ↦ rw f refl
    | inr f ↦
        rw f (
          install_by_mode-kept (classify (some p)) (some p) audit_log no_reload d (classify-some p))
  ]

  ensure_by-kept : (m : PlistMode) (d : Disk) → (ensure_by system (by_mode m) d).1 ≡ d
  unfolding ensure_by by_mode
  ensure_by-kept mode_socket_activated d = refl
  ensure_by-kept mode_old_style d = refl
  ensure_by-kept mode_unknown d = refl
  ensure_by-kept mode_missing d = refl

  ensure_over-kept :
      (reading : Result Text (Option ParsedPlist)) (d : Disk)
      → reading ≢ ok none
      → (ensure_over system reading d).1 ≡ d
  unfolding ensure_over
  ensure_over-kept (err e) d h = refl
  ensure_over-kept (ok none) d h = absurd (h refl)
  ensure_over-kept (ok (some p)) d h =
      unfold decide_ensure_action in ensure_by-kept (classify (some p)) d

  reading_of-some :
      (d : Disk) (old : Text)
      → d.plist ≡ some old
      → read_plist (reading_of system d.plist) ≢ ok none
  unfolding reading_of
  reading_of-some d old e = rw e (read-some (system.convert old))

  -- Where there is a plist, whatever stands in it, `-install-plist` and `-ensure-user-plist` change
  -- nothing on disk and load nothing.
  pub install_keeps_plist :
      (audit_log : Text) (no_reload : Bool) (d : Disk) (old : Text)
      → d.plist ≡ some old
      → ((install_plist system audit_log no_reload d).1 ≡ d) × ((ensure_user_plist system d).1 ≡ d)
  unfolding install_plist ensure_user_plist
  install_keeps_plist audit_log no_reload d old e = (
    install_over-kept (read_plist (reading_of system d.plist)) audit_log no_reload d
        (reading_of-some d old e),
    ensure_over-kept (read_plist (reading_of system d.plist)) d (reading_of-some d old e),
  )

  -- The plist is as it was, or the newest backup is what it was.
  abbrev pub Safe : Disk → Exit × Disk → Type 0
  Safe d after =
      (after.1.plist ≡ d.plist)
      ⊎ ((old : Text) × (d.plist ≡ some old) × (after.1.backups ≡ old ∷ d.backups))

  backups-reload : (no_reload : Bool) (d : Disk) → (reload system no_reload d).1.backups ≡ d.backups
  unfolding reload after_reload
  backups-reload no_reload d = ground arith

  backups-write :
      (failure : Option Text) (contents : Text) (no_reload : Bool) (d : Disk)
      → (write system failure contents no_reload d).1.backups ≡ d.backups
  unfolding write
  backups-write (some e) contents no_reload d = refl
  backups-write none contents no_reload d =
      backups-reload no_reload (record d { plist = some contents })

  back_up-Safe :
      (failure : Option Text) (old contents : Text) (no_reload : Bool) (d : Disk)
      → d.plist ≡ some old
      → Safe d (back_up system failure old contents no_reload d)
  unfolding back_up
  back_up-Safe (some e) old contents no_reload d h = inl refl
  back_up-Safe none old contents no_reload d h = inr (
    old,
    h,
    backups-write system.write_error contents no_reload (record d { backups = old ∷ d.backups }),
  )

  rewrite_plist-Safe :
      (failure : Option Text) (old : Option Text) (contents : Text) (dry_run no_reload : Bool)
      (d : Disk)
      → d.plist ≡ old
      → Safe d (rewrite_plist system failure old contents dry_run no_reload d)
  unfolding rewrite_plist
  rewrite_plist-Safe (some e) old contents dry_run no_reload d h = inl refl
  rewrite_plist-Safe none none contents dry_run no_reload d h = inl refl
  rewrite_plist-Safe none (some old) contents true no_reload d h = inl refl
  rewrite_plist-Safe none (some old) contents false no_reload d h =
      back_up-Safe system.backup_error old contents no_reload d h

  migrate_by_mode-Safe :
      (m : PlistMode) (p : ParsedPlist) (dry_run no_reload : Bool) (d : Disk)
      → Safe d (migrate_by_mode system m p dry_run no_reload d)
  unfolding migrate_by_mode
  migrate_by_mode-Safe mode_socket_activated p dry_run no_reload d = inl refl
  migrate_by_mode-Safe mode_unknown p dry_run no_reload d = inl refl
  migrate_by_mode-Safe mode_old_style p dry_run no_reload d =
      rewrite_plist-Safe system.read_error d.plist (migrated system p) dry_run no_reload d refl
  migrate_by_mode-Safe mode_missing p dry_run no_reload d =
      rewrite_plist-Safe system.read_error d.plist (migrated system p) dry_run no_reload d refl

  migrate_over-Safe :
      (reading : Result Text (Option ParsedPlist)) (dry_run no_reload : Bool) (d : Disk)
      → Safe d (migrate_over system reading dry_run no_reload d)
  unfolding migrate_over
  migrate_over-Safe (err e) dry_run no_reload d = inl refl
  migrate_over-Safe (ok none) dry_run no_reload d = inl refl
  migrate_over-Safe (ok (some p)) dry_run no_reload d = elim (Bool-cases (is_foreign p)) [
    | inl f ↦ rw f (inl refl)
    | inr f ↦ rw f (migrate_by_mode-Safe (classify (some p)) p dry_run no_reload d)
  ]

  -- However `-migrate-plist` ends, the plist is as it was, or its contents before are the newest backup.
  pub migrate_plist-Safe :
      (dry_run no_reload : Bool) (d : Disk) → Safe d (migrate_plist system dry_run no_reload d)
  unfolding migrate_plist
  migrate_plist-Safe dry_run no_reload d =
      migrate_over-Safe (read_plist (reading_of system d.plist)) dry_run no_reload d
