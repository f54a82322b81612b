-- ===== src/Plist/Commands/Again.antt =====
-- `cmdMigratePlist` of plist_darwin.go on a plist that it has written.
use touchid_agent.Prelude.{
  suc, Bool, false, List, [], ◌∷◌, none, some, ◌≡◌, refl, Bool-cases, inl, inr, if◌then◌else◌, All,
  ap,
}
use touchid_agent.Text.{Text, codes, equal, equal_refl, is_empty}
use touchid_agent.Plist.{
  ParsedPlist, mode_old_style, mode_socket_activated, classify, read_plist, parsed, decoded, Fields,
  extract_run_flags, resolve_binary_path, plist_label, find, read_fields, texts_in, ok, onto_texts,
  text_or_empty, arguments_in, member,
}
use touchid_agent.Plist.Xml.{read_document}
use touchid_agent.Plist.Xml.Texts.{IsPlainText}
use touchid_agent.Plist.Xml.Rendered.{array_of, rendered_fields, read_document-render_plist}
use touchid_agent.Plist.Commands.{
  finished, Disk, System, reading_of, is_foreign, new_socket, new_log, migrated, back_up, write,
  reload, after_reload, rewrite_plist, migrate_by_mode, migrate_over, migrate_plist,
}

texts_in-array_of : (ts : List Text) → texts_in (array_of ts) ≡ ts
unfolding texts_in onto_texts array_of
texts_in-array_of [] = refl
texts_in-array_of (t ∷ ts) = ap (λ us. t ∷ us) (texts_in-array_of ts)

module _ (binary socket log_path : Text) (extra : List Text) where
  abbrev shown : ParsedPlist
  shown = parsed (rendered_fields binary socket log_path extra)

  label-rendered : shown.label ≡ plist_label
  unfolding parsed rendered_fields find equal
  label-rendered = refl

  classify-rendered : classify (some shown) ≡ mode_socket_activated
  unfolding classify parsed rendered_fields find equal
  classify-rendered = elim (Bool-cases (equal (codes "-launchd") binary)) [
    | inl e ↦ rw e refl
    | inr e ↦ rw e refl
  ]

  -- The arguments, the socket and the log that a plist names.
  abbrev pub IsShown : ParsedPlist → Type 0
  IsShown p =
      (p.program_arguments ≡ binary ∷ codes "-launchd" ∷ extra)
      × (p.socket_path ≡ socket)
      × (p.standard_error_path ≡ log_path)

  shown-IsShown : IsShown shown
  unfolding parsed rendered_fields find text_or_empty arguments_in texts_in onto_texts member equal
  shown-IsShown = (ap (λ ts. binary ∷ codes "-launchd" ∷ ts) (texts_in-array_of extra), refl, refl)

-- An old-style plist of ours that `-migrate-plist` can rewrite, no system call failing; its texts are of
-- characters that XML allows as they are; and plutil reads property lists in XML as the format says.
pub record IsMigratable (system : System) (d : Disk) (old : Text) (raw : Fields) : Type 0 where
  pub there : d.plist ≡ some old
  pub readable : system.convert old ≡ decoded raw
  pub ours : (parsed raw).label ≡ plist_label
  pub old_style : classify (some (parsed raw)) ≡ mode_old_style
  pub reads : system.read_error ≡ none
  pub backs_up : system.backup_error ≡ none
  pub writes : system.write_error ≡ none
  pub reloads : system.reload_error ≡ none
  pub plain : All IsPlainText (
      resolve_binary_path (some (parsed raw)) system.executable system.links
      ∷ new_socket system (parsed raw)
      ∷ new_log system (parsed raw)
      ∷ extract_run_flags (parsed raw).program_arguments)
  pub reads_xml :
      (document : Text) (found : Fields)
      → read_document document ≡ some found
      → system.convert document ≡ decoded found

not_foreign : (p : ParsedPlist) → p.label ≡ plist_label → is_foreign p ≡ false
unfolding is_foreign
not_foreign p h = rw (h, equal_refl plist_label) (unfold is_empty in refl)

module _ (system : System) (no_reload : Bool) (d : Disk) (old : Text) (raw : Fields)
    (h : IsMigratable system d old raw) where
  abbrev rewritten : Disk
  rewritten = record {
    plist = some (migrated system (parsed raw));
    backups = old ∷ d.backups;
    loads = if no_reload then d.loads else suc d.loads;
  }

  migrates : migrate_plist system false no_reload d ≡ (finished, rewritten)
  unfolding migrate_plist migrate_over reading_of read_plist migrate_by_mode rewrite_plist back_up
      write reload after_reload
  migrates =
      rw
        (
          h.there,
          h.readable,
          not_foreign (parsed raw) h.ours,
          h.old_style,
          h.reads,
          h.backs_up,
          h.writes,
          h.reloads,
        )
        (elim (Bool-cases no_reload) [ inl e ↦ rw e refl | inr e ↦ rw e refl ])

  abbrev binary : Text
  binary = resolve_binary_path (some (parsed raw)) system.executable system.links

  abbrev flags : List Text
  flags = extract_run_flags (parsed raw).program_arguments

  abbrev socket : Text
  socket = new_socket system (parsed raw)

  abbrev log_path : Text
  log_path = new_log system (parsed raw)

  reads_back :
      system.convert (migrated system (parsed raw))
      ≡ decoded (rendered_fields binary socket log_path flags)
  unfolding migrated
  reads_back = h.reads_xml _ _ (read_document-render_plist binary socket log_path flags h.plain)

  read_again :
      read_plist (some (system.convert (migrated system (parsed raw))))
      ≡ ok (some (shown binary socket log_path flags))
  unfolding read_plist read_fields
  read_again = rw reads_back refl

  again : migrate_plist system false no_reload rewritten ≡ (finished, rewritten)
  unfolding migrate_plist migrate_over reading_of read_plist migrate_by_mode
  again =
      rw
        (
          reads_back,
          not_foreign (shown binary socket log_path flags)
              (label-rendered binary socket log_path flags),
          classify-rendered binary socket log_path flags,
        )
        refl

-- An old-style plist of ours is migrated where no system call fails, its texts are plain and plutil reads
-- XML as the format says: its contents are backed up; the plist that replaces it is read with the
-- program, the socket and the log of the old one (or their defaults where it names none), and with
-- `-launchd` and just the preserved flags as arguments; and migrating again changes nothing.
pub migrate_plist_twice :
    (system : System) (no_reload : Bool) (d : Disk) (old : Text) (raw : Fields)
    → IsMigratable system d old raw
    → (after : Disk) × (migrate_plist system false no_reload d ≡ (finished, after))
      × (after.plist ≡ some (migrated system (parsed raw)))
      × (after.backups ≡ old ∷ d.backups)
      × ((p : ParsedPlist) × (read_plist (some (system.convert (migrated system (parsed raw))))
            ≡ ok (some p))
          × IsShown
              (resolve_binary_path (some (parsed raw)) system.executable system.links)
              (new_socket system (parsed raw))
              (new_log system (parsed raw))
              (extract_run_flags (parsed raw).program_arguments)
              p)
      × (migrate_plist system false no_reload after ≡ (finished, after))
migrate_plist_twice system no_reload d old raw h = (
  rewritten system no_reload d old raw h,
  migrates system no_reload d old raw h,
  refl,
  refl,
  (
    shown (binary system no_reload d old raw h) (socket system no_reload d old raw h)
        (log_path system no_reload d old raw h) (flags system no_reload d old raw h),
    read_again system no_reload d old raw h,
    shown-IsShown _ _ _ _,
  ),
  again system no_reload d old raw h,
)
