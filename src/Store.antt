-- ===== src/Store.antt =====
-- keystore_fs.go and `validateLabel` of main.go: keys as files of one directory. A directory is its
-- entries in order of name; JSON and base64 are the interface `Format`, and the clock's text an argument.
pub mod Label
pub mod Created
pub mod Removed
pub mod Listed
pub mod Mapping
pub mod Opened
pub mod Emptied
use touchid_agent.Prelude.{
  ℕ, ◌+◌, Bool, true, false, not, ◌&&◌, ◌||◌, List, [], ◌∷◌, ◌++◌, Option, none, some, Result, ok,
  err, ◌>>=◌, map, ltb, leb, ◌==◌, if◌then◌else◌, ◌≡◌,
}
use touchid_agent.Text.{Text, codes, equal, is_empty}
use touchid_agent.FilePath.{base, join}
use touchid_agent.Key.{
  Key, PublicKey, KeyError, Enclave, parse_ec_public_key, marshal_ec_public_key, generate_se_key,
  se_public_key_of,
}
use touchid_agent.Policy.{CallerRule}
use touchid_agent.Policy.Parse.{RuleError, to_string, reload_rules, rule_strings}
use touchid_agent.Store.Label.{
  LabelError, validate_label, file_name, has_suffix, trim_suffix, json_suffix,
}

abbrev pub keyfile_version : ℕ
keyfile_version = 1

pub record Keyfile : Type 0 where
  pub version : ℕ
  pub label : Text
  pub require_touch : Bool
  pub created_at : Text
  pub key_data : Text
  pub public_key : Text
  pub caller_rules : List Text

-- `encoding/json` on a key file, and base64: what cannot be decoded is `none`.
pub record Format : Type 0 where
  pub encode : Keyfile → Option (List ℕ)
  pub decode : List ℕ → Option Keyfile
  pub to_base64 : List ℕ → Text
  pub from_base64 : Text → Option (List ℕ)

-- What is documented: encodings are read back.
pub record IsFaithful (f : Format) : Type 0 where
  pub encoding : Keyfile → List ℕ
  pub encodes : (k : Keyfile) → f.encode k ≡ some (encoding k)
  pub decodes : (k : Keyfile) → f.decode (encoding k) ≡ some k
  pub base64 : (b : List ℕ) → f.from_base64 (f.to_base64 b) ≡ some b

pub data Node : Type 0 where
  file : List ℕ → Node
  unreadable : Text → Node
  directory : Node

pub record Entry : Type 0 where
  pub name : Text
  pub node : Node

pub data LoadKeyError : Type 0 where
  cannot_read : Text → LoadKeyError
  bad_json label_mismatch bad_key_data bad_public_key key_mismatch : LoadKeyError
  unsupported_version : ℕ → LoadKeyError
  bad_point no_derived : KeyError → LoadKeyError
  bad_rule : RuleError → LoadKeyError

pub data StoreError : Type 0 where
  bad_label : LabelError → StoreError
  already_exists : Text → StoreError
  stat_failed create_failed remove_failed cannot_read_dir : Text → StoreError
  encode_failed : StoreError
  no_key : KeyError → StoreError

-- An early return with an error, where a condition does not hold.
abbrev or_err {ε} : {E : Type ε} → E → Bool → Result E (Unit {0})
or_err e false = err e
or_err e true = ok tt

abbrev or_fail {ℓ κ} : {E : Type ℓ} {A : Type κ} → Option A → E → Result E A
or_fail none e = err e
or_fail (some a) e = ok a

abbrev map_error {ℓ κ ε} :
    {E : Type ε} {F : Type ℓ} {A : Type κ} → (E → F) → Result E A → Result F A
map_error f (ok a) = ok a
map_error f (err e) = err (f e)

infixl 5 ◌>>◌
abbrev ◌>>◌ {ε ρ} : {E : Type ε} {R : Type ρ} → Result E (Unit {0}) → Result E R → Result E R
err e >> later = err e
ok u >> later = later

module _ (format : Format) (enclave : Enclave) where
  open format use {encode, decode, to_base64, from_base64}

  -- The key that the record of a file stands for, where the file's name is `stem` and ".json".
  key_of_record : Text → Keyfile → Result LoadKeyError Key
  key_of_record stem rec = do
    or_err (unsupported_version rec.version) (rec.version == keyfile_version)
    or_err label_mismatch (equal rec.label stem)
    key_data ← or_fail (from_base64 rec.key_data) bad_key_data
    pub_raw ← or_fail (from_base64 rec.public_key) bad_public_key
    found ← map_error bad_point (parse_ec_public_key pub_raw)
    derived ← map_error no_derived (se_public_key_of enclave key_data)
    or_err key_mismatch (equal (marshal_ec_public_key found) (marshal_ec_public_key derived))
    rules ← map_error bad_rule (reload_rules rec.caller_rules)
    ok (record {
      label = rec.label;
      require_touch = rec.require_touch;
      caller_rules = rules;
      public_key = derived;
      key_data = key_data;
      sign_fn = none;
    })

  unfoldable pub load_keyfile : Text → Result Text (List ℕ) → Result LoadKeyError Key
  unfolding key_of_record
  load_keyfile path content = do
    bytes ← map_error cannot_read content
    rec ← or_fail (decode bytes) bad_json
    key_of_record (trim_suffix (base path) json_suffix) rec

  content_of : Node → Result Text (List ℕ)
  content_of (file b) = ok b
  content_of (unreadable e) = err e
  content_of directory = err []

  is_directory : Node → Bool
  is_directory directory = true
  is_directory _ = false

  onto_loaded : Result LoadKeyError Key → List Key → List Key
  onto_loaded (ok k) ks = k ∷ ks
  onto_loaded (err e) ks = ks

  -- Directories, files of other names and files that do not load are passed over.
  pub load_all : Text → List Entry → List Key
  load_all dir [] = []
  load_all dir (e ∷ es) =
      let rest = load_all dir es in
      let loaded = onto_loaded (load_keyfile (join dir e.name) (content_of e.node)) rest in
      if is_directory e.node || not (has_suffix e.name json_suffix) then rest else loaded

-- `<` on strings
pub text_lt : Text → Text → Bool
text_lt [] [] = false
text_lt [] (d ∷ t) = true
text_lt (c ∷ s) [] = false
text_lt (c ∷ s) (d ∷ t) = ltb c d || (c == d && text_lt s t)

insert_key : Key → List Key → List Key
insert_key k [] = k ∷ []
insert_key k (l ∷ ls) = if text_lt k.label l.label then k ∷ l ∷ ls else l ∷ insert_key k ls

-- sort.Slice by label; labels differ, so that every sorting gives this order.
sort_keys : List Key → List Key
sort_keys [] = []
sort_keys (k ∷ ks) = insert_key k (sort_keys ks)

-- What reading the directory gives.
pub data Listing : Type 0 where
  missing : Listing
  failed : Text → Listing
  entries : List Entry → Listing

unfoldable pub list : Format → Enclave → Text → Listing → Result StoreError (List Key)
unfolding load_all content_of is_directory onto_loaded sort_keys insert_key text_lt
list format enclave dir missing = ok []
list format enclave dir (failed e) = err (cannot_read_dir e)
list format enclave dir (entries es) = ok (sort_keys (load_all format enclave dir es))

unfoldable pub has_entry : Text → List Entry → Bool
has_entry name [] = false
has_entry name (e ∷ es) = equal e.name name || has_entry name es

pub without_entry : Text → List Entry → List Entry
without_entry name [] = []
without_entry name (e ∷ es) =
    let rest = without_entry name es in if equal e.name name then rest else e ∷ rest

-- How the system's calls end, what a write of a key file that fails has written by then, and the
-- formatted time. `discard_error` is that of the removal behind a failed write.
pub record Faults : Type 0 where
  pub stat_error : Option Text
  pub create_error : Option Text
  pub write_error : Option (Text × List ℕ)
  pub discard_error : Option Text
  pub created_at : Text

module _ (format : Format) (enclave : Enclave) (faults : Faults) where
  open format use {encode, to_base64}

  keyfile_of : Text → Bool → List CallerRule → List ℕ × PublicKey → Keyfile
  keyfile_of label require_touch rules (key_data, key) = record {
    version = keyfile_version;
    label = label;
    require_touch = require_touch;
    created_at = faults.created_at;
    key_data = to_base64 key_data;
    public_key = to_base64 (marshal_ec_public_key key);
    caller_rules = rule_strings rules;
  }

  abbrev Stored : Type 0
  Stored = Result StoreError (Unit {0}) × List Entry

  abbrev pub with_new : Text → List ℕ → List Entry → List Entry
  with_new name bytes es = es ++ record { name = name; node = file bytes } ∷ []

  -- `os.Remove(path)` of what a failed write has left; its own error is not looked at.
  discarded : Option Text → Text → List ℕ → List Entry → List Entry
  discarded none name part es = es
  discarded (some e) name part es = with_new name part es

  -- The file is created anew; where the record cannot be encoded or written it is removed again.
  written : Text → List Entry → Option (Text × List ℕ) → Option (List ℕ) → Stored
  unfolding discarded
  written name es failure none = (err encode_failed, discarded faults.discard_error name [] es)
  written name es (some (e, part)) (some bytes) =
      (err encode_failed, discarded faults.discard_error name part es)
  written name es none (some bytes) = (ok tt, with_new name bytes es)

  write_keyfile : Text → Keyfile → List Entry → Option Text → Stored
  unfolding written
  write_keyfile name rec es (some e) = (err (create_failed e), es)
  write_keyfile name rec es none = written name es faults.write_error (encode rec)

  key_made : Text → Bool → List CallerRule → List ℕ × PublicKey → Key
  key_made label require_touch rules (key_data, key) = record {
    label = label;
    require_touch = require_touch;
    caller_rules = rules;
    public_key = key;
    key_data = key_data;
    sign_fn = none;
  }

  finish : Key → Stored → Result StoreError Key × List Entry
  finish k (err e, es) = (err e, es)
  finish k (ok u, es) = (ok k, es)

  store_key :
      Text
      → Bool
      → List CallerRule
      → List Entry
      → Result KeyError (List ℕ × PublicKey)
      → Result StoreError Key × List Entry
  unfolding keyfile_of write_keyfile key_made finish
  store_key label require_touch rules es (err e) = (err (no_key e), es)
  store_key label require_touch rules es (ok made) =
      finish (key_made label require_touch rules made) (
        write_keyfile (file_name label) (keyfile_of label require_touch rules made) es
          faults.create_error)

  stat_then :
      Text
      → List Entry
      → Option Text
      → Result StoreError Key × List Entry
      → Result StoreError Key × List Entry
  stat_then label es (some e) made = (err (stat_failed e), es)
  stat_then label es none made =
      if has_entry (file_name label) es then (err (already_exists label), es) else made

  checked :
      Result LabelError (Unit {0})
      → List Entry
      → Result StoreError Key × List Entry
      → Result StoreError Key × List Entry
  checked (err e) es made = (err (bad_label e), es)
  checked (ok u) es made = made

  -- `Generate`: the result, and the directory's entries after it.
  unfoldable pub generate :
      Text → Bool → List CallerRule → List Entry → Result StoreError Key × List Entry
  unfolding store_key stat_then checked has_entry
  generate label require_touch rules es = checked (validate_label label) es (
      stat_then label es faults.stat_error
        (store_key label require_touch rules es (generate_se_key enclave require_touch)))

-- Whether the removal of an entry fails.
abbrev pub Removal : Type 0
Removal = Text → Option Text

remove_entry : Removal → Text → List Entry → Result StoreError (Unit {0}) × List Entry
unfolding has_entry without_entry
remove_entry removal name es =
    if not (has_entry name es) then (ok tt, es) else elim (removal name) [
      | some e ↦ (err (remove_failed e), es)
      | none ↦ (ok tt, without_entry name es)
    ]

delete_checked :
    Removal
    → Text
    → List Entry
    → Result LabelError (Unit {0})
    → Result StoreError (Unit {0}) × List Entry
delete_checked removal label es (err e) = (err (bad_label e), es)
delete_checked removal label es (ok u) = remove_entry removal (file_name label) es

unfoldable pub delete : Removal → Text → List Entry → Result StoreError (Unit {0}) × List Entry
unfolding delete_checked remove_entry
delete removal label es = delete_checked removal label es (validate_label label)

first_error : Option Text → Result StoreError (Unit {0}) → Result StoreError (Unit {0})
first_error none later = later
first_error (some e) later = err (remove_failed e)

-- Every key file is tried, whatever fails; the first failure is returned.
remove_all : Removal → List Entry → Result StoreError (Unit {0}) × List Entry
unfolding first_error
remove_all removal [] = (ok tt, [])
remove_all removal (e ∷ es) =
    let (r, left) = remove_all removal es in
    if not (has_suffix e.name json_suffix)
    then (r, e ∷ left)
    else (first_error (removal e.name) r, elim (removal e.name) [ some x ↦ e ∷ left | none ↦ left ])

unfoldable pub delete_all : Removal → Listing → Result StoreError (Unit {0}) × Listing
unfolding remove_all
delete_all removal missing = (ok tt, missing)
delete_all removal (failed e) = (err (cannot_read_dir e), failed e)
delete_all removal (entries es) = let (r, left) = remove_all removal es in (r, entries left)
