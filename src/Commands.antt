-- ===== src/Commands.antt =====
-- The commands of main.go that are run from a terminal: what they change, print and need. What a command
-- prints is a list of messages; where it exits with status 1 its result is the failure.
pub mod Keys
pub mod Stale
pub mod Status
pub mod Audited
pub mod Cli
use touchid_agent.Prelude.{
  ℕ, ℤ, Bool, true, false, not, List, [], ◌∷◌, ◌++◌, Option, none, some, Result, ok, err, length,
  any, map, if◌then◌else◌, ◌||◌,
}
use touchid_agent.Text.{Text, codes, equal, is_empty, trim_space}
use touchid_agent.FilePath.{join}
use touchid_agent.Key.{Key, PublicKey, KeyError, Enclave}
use touchid_agent.Key
use touchid_agent.Policy.Parse.{RuleError, parse_key_callers}
use touchid_agent.Policy.{CallerRule}
use touchid_agent.Store.{
  Format, Entry, Faults, StoreError, Removal, Listing, entries, missing, failed, generate, delete,
  delete_all, list,
}
use touchid_agent.Store.Label.{LabelError, validate_label}
use touchid_agent.Audit.{Reason, VerifyError, VerifyResult, verify_audit_chain, Verdict}
use touchid_agent.Audit.Encoding.{Codec}
use touchid_agent.Audit.Scan.{Bytes}
use touchid_agent.Agent.Failure.{Advice, classify_sign_error}

pub data SelfTestError : Type 0 where
  not_signed : Advice → SelfTestError
  not_verified : SelfTestError

pub data Failure : Type 0 where
  label_error : LabelError → Failure
  callers_error : RuleError → Failure
  not_generated not_deleted not_listed : StoreError → Failure
  self_test_failed : SelfTestError → Failure
  not_converted : Failure
  hook_failed : Text → Failure
  not_verifiable : VerifyError → Failure
  log_tampered unreachable agent_failed : Failure

-- `keyListEntry`
pub record KeyListEntry : Type 0 where
  pub label : Text
  pub require_touch : Bool
  pub public_key : Text

pub data Message : Type 0 where
  confirming_touch : Message
  key_created : Text → Bool → Message
  ssh_public_key : Text → Text → Message
  pub_key_warning : Text → Message
  pub_key_written : Text → Message
  hook_running : Text → List Text → Message
  hook_completed no_keys aborted all_deleted : Message
  json_entries : List KeyListEntry → Message
  key_line : KeyListEntry → Message
  key_deleted : Text → Message
  log_intact log_broken : Text → VerifyResult → Message
  agent_running : ℕ → Message
  stale_agents : List ℤ → Message

-- A file beside the SSH keys of the user.
pub record PubFile : Type 0 where
  pub path : Text
  pub content : Text

-- What the commands change: the key store's directory, the public-key files, and what is printed.
pub record Machine : Type 0 where
  pub stored : List Entry
  pub pub_files : List PubFile
  pub printed : List Message

-- A command ends with a result or a failure, and leaves the machine changed.
abbrev pub Command : Type 0 → Type 0
Command A = Machine → Result Failure A × Machine

abbrev pub continue :
    {A B : Type 0} → (A → Command B) → Result Failure A × Machine → Result Failure B × Machine
continue next (ok a, m) = next a m
continue next (err e, m) = (err e, m)

infixl 5 ◌>>=◌
abbrev pub ◌>>=◌ : {A B : Type 0} → Command A → (A → Command B) → Command B
first >>= next = λ m. continue next (first m)

infixl 5 ◌>>◌
abbrev pub ◌>>◌ : {A B : Type 0} → Command A → Command B → Command B
first >> next = λ m. continue (λ a. next) (first m)

abbrev pub give : {A : Type 0} → A → Command A
give a m = (ok a, m)

abbrev pub give_up : {A : Type 0} → Failure → Command A
give_up f m = (err f, m)

abbrev pub check : {E A : Type 0} → (E → Failure) → Result E A → Command A
check f (ok a) = give a
check f (err e) = give_up (f e)

abbrev pub need : {A : Type 0} → Failure → Option A → Command A
need f (some a) = give a
need f none = give_up f

abbrev pub say : Message → Command (Unit {0})
say x m = (ok tt, record m { printed = m.printed ++ x ∷ [] })

-- A change of the key store that has a result.
abbrev pub to_store :
    {A : Type 0} → (StoreError → Failure) → Result StoreError A × List Entry → Command A
to_store f (r, es) m = check f r (record m { stored = es })

-- Where the program runs: the interfaces of the store, the SSH library, and how the system's calls end.
-- A write of a public-key file that fails has not opened it, or leaves a part of the text in it.
pub record Surroundings : Type 0 where
  pub format : Format
  pub enclave : Enclave
  pub faults : Faults
  pub removal : Removal
  pub key_dir : Text
  pub read_error : Option Text
  pub home : Option Text
  pub mkdir_error : Option Text
  pub pub_write_error : Option (Text × Option Text)
  pub pub_removal : Text → Option Text
  pub authorized_key : PublicKey → Option Text
  pub verify_asn1 : PublicKey → List ℕ → List ℕ → Bool
  pub digest : List ℕ
  pub message : KeyError → Text
  pub hook_error : Text → List Text → Option Text
