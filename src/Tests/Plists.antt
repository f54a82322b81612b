-- ===== src/Tests/Plists.antt =====
-- An old-style plist, its migration, and the commands on it.
use touchid_agent.Prelude.{
  true, false, List, [], ◌∷◌, none, some, ◌≡◌, refl, ok, Option, arith, ◌++◌,
}
use touchid_agent.Text.{Text, codes, equal, is_empty, has_prefix}
use touchid_agent.Plist.{
  Fields, field, no_fields, text, flag, array, element, no_elements, parsed, decoded, Reading,
  extract_run_flags, classify, resolve_binary_path, socket_from_old_args, run_flags, is_preserved,
  takes_value, ParsedPlist, plutil_failed, read_plist,
}
use touchid_agent.Plist.Render.{render_plist}
use touchid_agent.Plist.Atomic.{
  WriteCalls, Files, with_file, AtPath, write_plist_atomically, write_plist_is_atomic,
}
use touchid_agent.Plist.Xml.{
  read_document, chunks, is_blank, frames, cut_tag, tag_of, step, put, is_named, content,
}
use touchid_agent.Plist.Commands.{
  finished, Disk, System, migrated, install_plist, ensure_user_plist, migrate_plist,
}
use touchid_agent.Plist.Commands.Kept.{Safe, install_keeps_plist, migrate_plist-Safe}
use touchid_agent.Plist.Commands.Again.{IsShown, IsMigratable, migrate_plist_twice, IsShown}

abbrev arguments : List Text
arguments =
    codes "/opt/agent"
    ∷ codes "-l"
    ∷ codes "/tmp/s"
    ∷ codes "-rate-limit"
    ∷ codes "9"
    ∷ codes "-v"
    ∷ []

abbrev old_fields : Fields
old_fields = field (codes "Label") (text (codes "touchid-agent")) (
    field (codes "ProgramArguments")
      (array (
        element (text (codes "/opt/agent")) (
          element (text (codes "-l")) (
            element (text (codes "/tmp/s")) (
              element (text (codes "-rate-limit"))
                (element (text (codes "9")) (element (text (codes "-v")) no_elements)))))))
      (field (codes "RunAtLoad") (flag true) no_fields))

-- A property list in XML with those fields
abbrev old : Text
old =
    codes
      "<?xml version=\"1.0\" encoding=\"UTF-8\"?><!DOCTYPE plist PUBLIC \"-//Apple//DTD PLIST 1.0//EN\" "
    ++ codes "\"http://www.apple.com/DTDs/PropertyList-1.0.dtd\">"
    ++ codes
        "<plist version=\"1.0\"><dict><key>Label</key><string>touchid-agent</string><key>ProgramArguments</key><array>"
    ++ codes
        "<string>/opt/agent</string><string>-l</string><string>/tmp/s</string><string>-rate-limit</string>"
    ++ codes
        "<string>9</string><string>-v</string></array><key>RunAtLoad</key><true/></dict></plist>"

abbrev as_reading : Option Fields → Reading
as_reading none = plutil_failed []
as_reading (some raw) = decoded raw

abbrev convert : Text → Reading
convert document = as_reading (read_document document)

old_read : read_document old ≡ some old_fields
unfolding read_document chunks is_blank frames cut_tag tag_of step put is_named content has_prefix
    equal is_empty
old_read = refl

reads_convert :
    (document : Text) (found : Fields)
    → read_document document ≡ some found
    → convert document ≡ decoded found
reads_convert document found h = rw h refl

abbrev system : System
system = record {
  convert = convert;
  default_socket_path = codes "/sock";
  default_log_path = codes "/log";
  executable = none;
  links = λ p. none;
  mkdir_error = none;
  read_error = none;
  backup_error = none;
  write_error = none;
  reload_error = none;
}

abbrev disk : Disk
disk = record { plist = some old; backups = []; loads = 0 }

install_keeps_plist_example :
    ((install_plist system (codes "/audit") false disk).1 ≡ disk)
    × ((ensure_user_plist system disk).1 ≡ disk)
install_keeps_plist_example = install_keeps_plist system (codes "/audit") false disk old refl

migrate_plist-Safe_example : Safe system disk (migrate_plist system false true disk)
migrate_plist-Safe_example = migrate_plist-Safe system false true disk

disk-IsMigratable : IsMigratable system disk old old_fields
unfolding equal parsed classify migrated render_plist resolve_binary_path is_empty extract_run_flags
    socket_from_old_args run_flags is_preserved takes_value
disk-IsMigratable = record {
  there = refl;
  readable = rw old_read refl;
  ours = refl;
  old_style = refl;
  reads = refl;
  backs_up = refl;
  writes = refl;
  reloads = refl;
  plain = ground arith;
  reads_xml = reads_convert;
}

migrate_plist_twice_example :
    (after : Disk) × (migrate_plist system false true disk ≡ (finished, after))
    × (after.plist ≡ some (migrated system (parsed old_fields)))
    × (after.backups ≡ old ∷ [])
    × ((p : ParsedPlist) × (read_plist (some (convert (migrated system (parsed old_fields))))
          ≡ ok (some p))
        × IsShown
            (codes "/opt/agent")
            (codes "/tmp/s")
            (codes "/log")
            (codes "-rate-limit" ∷ codes "9" ∷ codes "-v" ∷ [])
            p)
    × (migrate_plist system false true after ≡ (finished, after))
unfolding equal parsed resolve_binary_path is_empty extract_run_flags socket_from_old_args run_flags
    is_preserved takes_value migrate_plist migrated read_plist
migrate_plist_twice_example = migrate_plist_twice system true disk old old_fields disk-IsMigratable

three_kept : extract_run_flags arguments ≡ codes "-rate-limit" ∷ codes "9" ∷ codes "-v" ∷ []
unfolding extract_run_flags run_flags is_preserved equal takes_value
three_kept = refl

-- A disk on which the name of the temporary file is free, and a close that fails
abbrev calls : WriteCalls
calls = record {
  mkdir_error = none;
  create_temp = ok (codes "/p.tmp-1");
  write_error = none;
  chmod_error = none;
  close_error = some (codes "disk full");
  rename_error = none;
  remove_error = none;
}

abbrev files : Files
files = with_file (codes "/p") (some (record { text = codes "old"; mode = 420 })) (λ q. none)

apart : equal (codes "/p.tmp-1") (codes "/p") ≡ false
unfolding equal
apart = refl

write_plist_is_atomic_example :
    AtPath calls
      (codes "/p")
      (codes "new")
      files
      (codes "/p")
      (write_plist_atomically calls (codes "/p") (codes "new") files)
write_plist_is_atomic_example =
    write_plist_is_atomic calls (codes "/p") (codes "new") (codes "/p") files apart
