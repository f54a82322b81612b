-- ===== src/Tests/Stores.antt =====
-- A key store as a map, and `-create` and `-delete` on it.
use touchid_agent.Prelude.{true, List, [], ◌∷◌, none, some, Result, ok, ◌≡◌, refl, arith, inr, inl}
use touchid_agent.Text.{Text, codes, equal, is_empty, contains_rune}
use touchid_agent.Key.{
  Key, generate_se_key, parse_ec_public_key, marshal_ec_public_key, to_bytes, is_on_curve,
  from_bytes,
}
use touchid_agent.Store.{Entry, generate, delete}
use touchid_agent.Store.Label.{validate_label, file_name, byte_length}
use touchid_agent.Store.Mapping.{find_entry, view, put, erase, generate_puts, delete_erases}
use touchid_agent.Commands.{Surroundings, Machine, Failure}
use touchid_agent.Commands.Keys.{cmd_create, cmd_delete, pub_path, without_file, confirm_delete_all}
use touchid_agent.Commands.Keys.Made.{delete-create}
use touchid_agent.FilePath.Names.{IsPlain}
use touchid_agent.FilePath.Clean.{absolute}
use touchid_agent.Tests.Samples.{base_point, enclave}
use touchid_agent.Tests.Keys.{
  format, format-IsFaithful, enclave-IsConsistent, no_faults, ready, tool_rules, other_file,
  no_removal_fails, valid_work, parsed_rules,
}
use touchid_agent.Commands.Keys.Emptied.{Consents, IsEmptied, confirm_delete_all-IsEmptied}

abbrev created_key : Key
created_key = record {
  label = codes "work";
  require_touch = true;
  caller_rules = tool_rules;
  public_key = base_point;
  key_data = 7 ∷ [];
  sign_fn = none;
}

abbrev stored : List Entry
stored = (generate format enclave no_faults (codes "work") true tool_rules other_file).1

created :
    generate format enclave no_faults (codes "work") true tool_rules other_file
    ≡ (ok created_key, stored)
unfolding generate validate_label is_empty contains_rune byte_length equal generate_se_key
    parse_ec_public_key marshal_ec_public_key to_bytes is_on_curve from_bytes
created = refl

generate_puts_example :
    (find_entry (file_name (codes "work")) other_file ≡ none)
    × ((l : Text)
        → view format enclave (codes "/keys") stored l
          ≡ put (codes "work") created_key (view format enclave (codes "/keys") other_file) l)
generate_puts_example =
    generate_puts format enclave (codes "/keys") no_faults (codes "work") (codes " /opt/tool,") true
      tool_rules other_file stored created_key format-IsFaithful enclave-IsConsistent parsed_rules
      created

delete_erases_example :
    ((delete no_removal_fails (codes "work") stored).0 ≡ ok tt)
    × ((l : Text)
        → view format enclave (codes "/keys") (delete no_removal_fails (codes "work") stored).1 l
          ≡ erase (codes "work") (view format enclave (codes "/keys") stored) l)
delete_erases_example =
    delete_erases format enclave (codes "/keys") no_removal_fails (codes "work") stored valid_work
      refl

-- A machine with a home directory, on which the hook fails.
abbrev home : Text
home = absolute (codes "ann") (codes "Users" ∷ [])

abbrev env : Surroundings
env = record {
  format = format;
  enclave = enclave;
  faults = no_faults;
  removal = no_removal_fails;
  key_dir = codes "/keys";
  read_error = none;
  home = some home;
  mkdir_error = none;
  pub_write_error = none;
  pub_removal = λ path. none;
  authorized_key = λ k. some (codes "ecdsa-sha2-nistp256 AAAA\n");
  verify_asn1 = λ k digest sig. true;
  digest = [];
  message = λ e. codes "failed";
  hook_error = λ hook environment. some (codes "exit status 1");
}

abbrev machine : Machine
machine = record { stored = other_file; pub_files = []; printed = [] }

ann-IsPlain : IsPlain (codes "ann")
unfolding is_empty equal
ann-IsPlain = record { no_slash = omega arith; filled = refl; not_dot = refl; not_dots = refl }

users-IsPlain : IsPlain (codes "Users")
unfolding is_empty equal
users-IsPlain = record { no_slash = omega arith; filled = refl; not_dot = refl; not_dots = refl }

abbrev after : Result Failure (Unit {0}) × Machine
after =
    cmd_delete env (codes "work")
      (cmd_create env (codes "work") true (codes "/opt/hook") (codes " /opt/tool,") machine).1

delete-create_example :
    (after.0 ≡ ok tt)
    × (after.1.stored ≡ other_file)
    × (after.1.pub_files ≡ without_file (pub_path env home (codes "work")) [])
delete-create_example =
    delete-create env (codes "work") (codes "ann") (codes "Users" ∷ []) (codes "/opt/hook")
      (codes " /opt/tool,") true tool_rules machine format-IsFaithful enclave-IsConsistent ready
      refl ann-IsPlain (users-IsPlain, tt) refl refl

no_failure : (name : Text) → env.removal name ≡ none
no_failure name = refl

consents : Consents env (some (codes "y"))
consents = inr (inl refl)

confirm_delete_all-IsEmptied_example :
    IsEmptied env machine (confirm_delete_all env (some (codes "y")) machine)
confirm_delete_all-IsEmptied_example =
    confirm_delete_all-IsEmptied env (some (codes "y")) machine consents refl no_failure
