-- ===== src/Commands/Cli.antt =====
-- `main` of main.go behind `flag.Parse`: which command the flags choose. Flags that are not given have
-- their default, "", false or 0.
pub mod Served
pub mod Verified
use touchid_agent.Prelude.{
  ℕ, ℤ, Bool, true, false, not, ◌&&◌, ◌||◌, Option, none, some, Result, ltb, ok, err, if◌then◌else◌,
}
use touchid_agent.Text.{Text, codes, equal, is_empty}
use touchid_agent.Config.{Settings}
use touchid_agent.Audit.Encoding.{Codec}
use touchid_agent.Audit.Scan.{Bytes}
use touchid_agent.Commands.{Command, Surroundings}
use touchid_agent.Commands.Keys.{cmd_create, cmd_list, cmd_delete, confirm_delete_all}
use touchid_agent.Commands.Audited.{cmd_verify_audit}

pub record Flags : Type 0 where
  pub show_version : Bool
  pub arguments : ℕ
  pub install_plist : Bool
  pub migrate_plist : Bool
  pub ensure_user_plist : Bool
  pub verify_audit : Bool
  pub create_key : Text
  pub no_touch : Bool
  pub post_hook : Text
  pub key_callers : Text
  pub list_keys : Bool
  pub list_json : Bool
  pub status_path : Text
  pub delete_key : Text
  pub delete_every : Bool
  pub launchd_mode : Bool
  pub socket_path : Text
  pub plist_path : Text
  pub dry_run : Bool
  pub no_reload : Bool
  pub audit_log_path : Text
  pub no_peer_check : Bool
  pub rate_limit : ℤ
  pub allowed_callers_file : Text
  pub require_hardened : Bool

pub data Chosen : Type 0 where
  print_version print_usage exclusive_modes run_ensure_user_plist run_delete_all : Chosen
  run_install_plist : Text → Text → Bool → Chosen
  run_migrate_plist : Text → Bool → Bool → Chosen
  run_verify_audit run_status run_delete : Text → Chosen
  no_key_store : Text → Chosen
  run_create : Text → Bool → Text → Text → Chosen
  run_list : Bool → Chosen
  serve : Text → Bool → Settings → Chosen

-- The arguments that `cmdRun` is called with.
unfoldable pub run_settings : Flags → Settings
run_settings f = record {
  audit_log_path = f.audit_log_path;
  peer_check = not f.no_peer_check;
  rate_limit = f.rate_limit;
  allowed_callers_file = f.allowed_callers_file;
  require_hardened = f.require_hardened;
}

-- The file that `-verify-audit` reads.
unfoldable pub verified_path : Flags → Text → Text
verified_path f default_path =
    if is_empty f.audit_log_path || equal f.audit_log_path (codes "-")
    then default_path
    else f.audit_log_path

-- The `switch`, in its order.
switch : Flags → Chosen
switch f =
    if not (is_empty f.create_key)
    then run_create f.create_key (not f.no_touch) f.post_hook f.key_callers
    else if f.list_keys
    then run_list f.list_json
    else if not (is_empty f.status_path)
    then run_status f.status_path
    else if not (is_empty f.delete_key)
    then run_delete f.delete_key
    else if f.delete_every
    then run_delete_all
    else if f.launchd_mode
    then serve (codes "") true (run_settings f)
    else if not (is_empty f.socket_path)
    then serve f.socket_path false (run_settings f)
    else print_usage

with_store : Option Text → Flags → Chosen
unfolding switch
with_store (some e) f = no_key_store e
with_store none f =
    if f.launchd_mode && not (is_empty f.socket_path) then exclusive_modes else switch f

-- The command, where `store_error` is how `DefaultKeyStore` ends and `default_path` the default audit log.
unfoldable pub choose : Text → Option Text → Flags → Chosen
unfolding with_store
choose default_path store_error f =
    if f.show_version
    then print_version
    else if ltb 0 f.arguments
    then print_usage
    else if f.install_plist
    then run_install_plist f.plist_path f.audit_log_path f.no_reload
    else if f.migrate_plist
    then run_migrate_plist f.plist_path f.dry_run f.no_reload
    else if f.ensure_user_plist
    then run_ensure_user_plist
    else if f.verify_audit
    then run_verify_audit (verified_path f default_path)
    else with_store store_error f

-- The commands of this module's parent; `none` for the others.
unfoldable pub run_command :
    Surroundings
    → Codec
    → (Text → Result Text Bytes)
    → Option Text
    → Chosen
    → Option (Command (Unit {0}))
run_command env codec read terminal (run_create label touch hook callers) =
    some (cmd_create env label touch hook callers)
run_command env codec read terminal (run_list json) = some (cmd_list env json)
run_command env codec read terminal (run_delete label) = some (cmd_delete env label)
run_command env codec read terminal run_delete_all = some (confirm_delete_all env terminal)
run_command env codec read terminal (run_verify_audit path) =
    some (cmd_verify_audit codec read path)
run_command env codec read terminal _ = none
