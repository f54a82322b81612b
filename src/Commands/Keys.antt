-- ===== src/Commands/Keys.antt =====
-- The commands of main.go on keys and on their public-key files: `cmdCreate`, `cmdList`, `cmdDelete`,
-- `cmdDeleteAll`, and what they call.
pub mod Made
pub mod Failed
pub mod Emptied
use touchid_agent.Prelude.{
  ℕ, ℤ, Bool, true, false, not, List, [], ◌∷◌, ◌++◌, Option, none, some, Result, ok, err, length,
  any, map, if◌then◌else◌, ◌||◌,
}
use touchid_agent.Text.{Text, codes, equal, is_empty, trim_space}
use touchid_agent.FilePath.{join}
use touchid_agent.Key.{Key, PublicKey, KeyError, Enclave}
use touchid_agent.Key
use touchid_agent.Policy.Parse.{RuleError, parse_key_callers}
use touchid_agent.Policy.{CallerRule}
use touchid_agent.Store.{
  Format, Entry, Faults, StoreError, Removal, Listing, entries, missing, failed, generate, delete,
  delete_all, list,
}
use touchid_agent.Store.Label.{LabelError, validate_label}
use touchid_agent.Audit.{Reason, VerifyError, VerifyResult, verify_audit_chain, Verdict}
use touchid_agent.Audit.Encoding.{Codec}
use touchid_agent.Audit.Scan.{Bytes}
use touchid_agent.Agent.Failure.{Advice, classify_sign_error}
use touchid_agent.Commands.{
  Command, Failure, KeyListEntry, Machine, Message, PubFile, SelfTestError, Surroundings, aborted,
  agent_failed, agent_running, all_deleted, callers_error, check, confirming_touch, continue, give,
  give_up, hook_completed, hook_failed, hook_running, json_entries, key_created, key_deleted,
  key_line, label_error, log_broken, log_intact, log_tampered, need, no_keys, not_converted,
  not_deleted, not_generated, not_listed, not_signed, not_verifiable, not_verified, say,
  self_test_failed, ssh_public_key, stale_agents, to_store, unreachable, ◌>>=◌, ◌>>◌,
  pub_key_warning, pub_key_written,
}

-- `fmt.Sprintf("touchid-agent-%s.pub", label)`, and the lines that name a key.
unfoldable pub pub_name : Text → Text
pub_name label = codes "touchid-agent-" ++ label ++ codes ".pub"

unfoldable pub named_key : Text → Text → Text
named_key label pub_key = pub_key ++ codes " touchid-agent:" ++ label

pub without_file : Text → List PubFile → List PubFile
without_file path [] = []
without_file path (f ∷ fs) =
    let rest = without_file path fs in if equal f.path path then rest else f ∷ rest

pub has_file : Text → List PubFile → Bool
has_file path fs = any (λ f. equal f.path path) fs

module _ (env : Surroundings) where
  open env use {format, enclave, faults, removal, key_dir}

  -- What a read of the store's directory gives.
  directory_of : Option Text → List Entry → Listing
  directory_of none es = entries es
  directory_of (some e) es = failed e

  listing : List Entry → Listing
  unfolding directory_of
  listing es = directory_of env.read_error es

  judge : PublicKey → Result KeyError (List ℕ) → Result SelfTestError (Unit {0})
  judge key (err e) = err (not_signed (classify_sign_error (env.message e)))
  judge key (ok sig) = if env.verify_asn1 key env.digest sig then ok tt else err not_verified

  unfoldable pub self_test_key : Key → Bool → Command (Unit {0})
  unfolding judge
  self_test_key key require_touch = do
    if require_touch then say confirming_touch else give tt
    check self_test_failed (judge key.public_key (Key.sign enclave key env.digest))

  -- The text of a public key for `authorized_keys`, where it can be converted.
  trimmed : Option Text → Option Text
  trimmed none = none
  trimmed (some s) = some (trim_space s)

  unfoldable pub ssh_text : PublicKey → Option Text
  unfolding trimmed
  ssh_text key = trimmed (env.authorized_key key)

  with_pub_file : Text → Text → List PubFile → List PubFile
  with_pub_file path content fs =
      without_file path fs ++ record { path = path; content = content } ∷ []

  -- What os.WriteFile has left where it fails.
  write_part : Text → Option Text → Command (Unit {0})
  unfolding with_pub_file
  write_part path none = give tt
  write_part path (some part) =
      λ m. (ok tt, record m { pub_files = with_pub_file path part m.pub_files })

  write_in : Text → Text → Text → Option Text → Option (Text × Option Text) → Command Text
  unfolding with_pub_file write_part
  write_in dir label pub_key (some e) _ = do say (pub_key_warning e); give []
  write_in dir label pub_key none (some (e, part)) = do
    write_part (join dir (pub_name label)) part
    say (pub_key_warning e)
    give []
  write_in dir label pub_key none none = λ m.
      let path = join dir (pub_name label) in
      (
        ok path,
        record m {
          pub_files = with_pub_file path (named_key label pub_key ++ codes "\n") m.pub_files;
          printed = m.printed ++ pub_key_written path ∷ [];
        },
      )

  write_at : Option Text → Text → Text → Command Text
  unfolding write_in
  write_at none label pub_key = do say (pub_key_warning []); give []
  write_at (some home) label pub_key =
      write_in (join home (codes ".ssh")) label pub_key env.mkdir_error env.pub_write_error

  -- `writePubKeyFile`: the path, or "" where the file could not be written.
  unfoldable pub write_pub_key_file : Text → Text → Command Text
  unfolding write_at
  write_pub_key_file label pub_key = write_at env.home label pub_key

  remove_file : Text → Option Text → Command (Unit {0})
  unfolding has_file without_file
  remove_file path failure m =
      if not (has_file path m.pub_files) then (ok tt, m) else elim failure [
        | some e ↦ say (pub_key_warning path) m
        | none ↦ (ok tt, record m { pub_files = without_file path m.pub_files })
      ]

  -- filepath.Join(home, ".ssh", name)
  abbrev pub pub_path : Text → Text → Text
  pub_path home label = join home (codes ".ssh/" ++ pub_name label)

  remove_at : Option Text → Text → Command (Unit {0})
  unfolding remove_file
  remove_at none label = give tt
  remove_at (some home) label =
      remove_file (pub_path home label) (env.pub_removal (pub_path home label))

  unfoldable pub remove_pub_key_file : Text → Command (Unit {0})
  unfolding remove_at
  remove_pub_key_file label = remove_at env.home label

  bool_text : Bool → Text
  bool_text true = codes "true"
  bool_text false = codes "false"

  -- What the hook finds in its environment besides the program's own.
  unfoldable pub hook_environment : Text → Text → Text → Bool → List Text
  unfolding bool_text
  hook_environment label pub_key pub_file require_touch =
      (codes "TOUCHID_AGENT_LABEL=" ++ label)
      ∷ (codes "TOUCHID_AGENT_PUBKEY=" ++ named_key label pub_key)
      ∷ (codes "TOUCHID_AGENT_PUBKEY_FILE=" ++ pub_file)
      ∷ (codes "TOUCHID_AGENT_TOUCH_REQUIRED=" ++ bool_text require_touch)
      ∷ []

  hook_ended : Option Text → Command (Unit {0})
  hook_ended none = say hook_completed
  hook_ended (some e) = give_up (hook_failed e)

  unfoldable pub run_post_hook : Text → List Text → Command (Unit {0})
  unfolding hook_ended
  run_post_hook hook environment = do
    say (hook_running hook environment)
    hook_ended (env.hook_error hook environment)

  -- `cmdCreate` behind `Generate`
  unfoldable pub after_generate : Text → Bool → Text → Key → Command (Unit {0})
  after_generate label require_touch hook key = do
    self_test_key key require_touch
    pub_key ← need not_converted (ssh_text key.public_key)
    say (key_created label require_touch)
    say (ssh_public_key label pub_key)
    pub_file ← write_pub_key_file label pub_key
    if is_empty hook
        then give tt
        else run_post_hook hook (hook_environment label pub_key pub_file require_touch)

  unfoldable pub cmd_create : Text → Bool → Text → Text → Command (Unit {0})
  cmd_create label require_touch hook callers = do
    check label_error (validate_label label)
    rules ← check callers_error (parse_key_callers callers)
    key ← λ m.
        to_store not_generated (generate format enclave faults label require_touch rules m.stored) m
    after_generate label require_touch hook key

  onto_entries : Key → Option Text → List KeyListEntry → List KeyListEntry
  onto_entries k none rest = rest
  onto_entries k (some pub_key) rest =
      record { label = k.label; require_touch = k.require_touch; public_key = pub_key } ∷ rest

  -- The keys whose public half can be converted.
  unfoldable pub list_entries : List Key → List KeyListEntry
  unfolding onto_entries
  list_entries [] = []
  list_entries (k ∷ ks) = onto_entries k (ssh_text k.public_key) (list_entries ks)

  say_lines : List KeyListEntry → Command (Unit {0})
  say_lines [] = give tt
  say_lines (e ∷ es) = do say (key_line e); say_lines es

  list_as : Bool → List Key → Command (Unit {0})
  unfolding say_lines
  list_as true ks = say (json_entries (list_entries ks))
  list_as false [] = say no_keys
  list_as false (k ∷ ks) = say_lines (list_entries (k ∷ ks))

  stored_keys : Command (List Key)
  unfolding listing
  stored_keys m = check not_listed (list format enclave key_dir (listing m.stored)) m

  unfoldable pub cmd_list : Bool → Command (Unit {0})
  unfolding list_as stored_keys
  cmd_list json = do keys ← stored_keys; list_as json keys

  unfoldable pub cmd_delete : Text → Command (Unit {0})
  cmd_delete label = do
    check label_error (validate_label label)
    λ m. to_store not_deleted (delete removal label m.stored) m
    remove_pub_key_file label
    say (key_deleted label)

  remove_pub_key_files : List Text → Command (Unit {0})
  remove_pub_key_files [] = give tt
  remove_pub_key_files (label ∷ labels) = do remove_pub_key_file label; remove_pub_key_files labels

  entries_left : Listing → List Entry → List Entry
  entries_left (entries es) old = es
  entries_left _ old = old

  delete_every : Command (Unit {0})
  unfolding listing entries_left
  delete_every m =
      let (r, left) = delete_all removal (listing m.stored) in
      check not_deleted r (record m { stored = entries_left left m.stored })

  unfoldable pub cmd_delete_all : List Text → Command (Unit {0})
  unfolding delete_every remove_pub_key_files
  cmd_delete_all labels = do delete_every; remove_pub_key_files labels; say all_deleted

  is_yes : Text → Bool
  is_yes answer = equal answer (codes "y") || equal answer (codes "Y")

  label_of : Key → Text
  label_of k = k.label

  delete_confirmed : Option Text → List Key → Command (Unit {0})
  unfolding is_yes label_of
  delete_confirmed terminal [] = say no_keys
  delete_confirmed none (k ∷ ks) = cmd_delete_all (map label_of (k ∷ ks))
  delete_confirmed (some answer) (k ∷ ks) =
      if is_yes answer then cmd_delete_all (map label_of (k ∷ ks)) else say aborted

  -- `-delete-all`; on a terminal with the user's answer.
  unfoldable pub confirm_delete_all : Option Text → Command (Unit {0})
  unfolding delete_confirmed stored_keys
  confirm_delete_all terminal = do keys ← stored_keys; delete_confirmed terminal keys
