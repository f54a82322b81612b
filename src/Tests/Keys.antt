-- ===== src/Tests/Keys.antt =====
-- The base point of the curve as bytes, labels, and a key that is created.
use touchid_agent.Prelude.{
  count, ℕ, suc, zero, Bool, true, false, List, [], ◌∷◌, ◌++◌, Option, none, some, Result, ok,
  length, take, drop, take_at, drop_at, ◌≡◌, refl, ap, ◌∙◌,
}
use touchid_agent.Text.{
  Text, codes, is_empty, contains_rune, equal, trim_space, trim_right, trim_left, is_space, split,
  cut, has_prefix,
}
use touchid_agent.FilePath.{base, join, clean}
use touchid_agent.Key.{
  Key, to_bytes, is_on_curve, parse_ec_public_key, marshal_ec_public_key, from_bytes,
  se_public_key_of,
}
use touchid_agent.Key.Point.{parse-marshal}
use touchid_agent.Store.{
  Keyfile, Format, Faults, Entry, file, IsFaithful, generate, list, entries, load_keyfile,
  has_entry,
}
use touchid_agent.Store.Label.{
  validate_label, file_name, key_path, trim_suffix, byte_length, has_suffix,
}
use touchid_agent.Store.Listed.{IsSorted, list-IsSorted, occurrences}
use touchid_agent.Store.Created.{IsConsistent, IsReady, generate-load_keyfile}
use touchid_agent.Policy.Parse.{parse_key_callers, parse_caller_rule, reload_rules}
use touchid_agent.Policy.{CallerRule, rule, rule_path}
use touchid_agent.Tests.Samples.{base_point, enclave}

on_curve : is_on_curve base_point.x base_point.y ≡ true
unfolding is_on_curve
on_curve = refl

base_point_back : parse_ec_public_key (marshal_ec_public_key base_point) ≡ ok base_point
base_point_back = parse-marshal base_point on_curve

abbrev raw_point : List ℕ
raw_point =
    4 ∷ 107 ∷ 23 ∷ 209 ∷ 242 ∷ 225 ∷ 44 ∷ 66 ∷ 71 ∷ 248 ∷ 188 ∷ 230 ∷ 229 ∷ 99 ∷ 164 ∷ 64 ∷ 242
    ∷ 119 ∷ 3 ∷ 125 ∷ 129 ∷ 45 ∷ 235 ∷ 51 ∷ 160 ∷ 244 ∷ 161 ∷ 57 ∷ 69 ∷ 216 ∷ 152 ∷ 194 ∷ 150 ∷ 79
    ∷ 227 ∷ 66 ∷ 226 ∷ 254 ∷ 26 ∷ 127 ∷ 155 ∷ 142 ∷ 231 ∷ 235 ∷ 74 ∷ 124 ∷ 15 ∷ 158 ∷ 22 ∷ 43 ∷ 206
    ∷ 51 ∷ 87 ∷ 107 ∷ 49 ∷ 94 ∷ 206 ∷ 203 ∷ 182 ∷ 64 ∷ 104 ∷ 55 ∷ 191 ∷ 81 ∷ 245 ∷ []

same_point : marshal_ec_public_key base_point ≡ raw_point
unfolding marshal_ec_public_key to_bytes
same_point = refl

pub valid_work : validate_label (codes "work") ≡ ok tt
unfolding validate_label is_empty contains_rune byte_length
valid_work = refl

-- A file format: each text behind its length, each list of texts behind its number.
put_text : Text → List ℕ → List ℕ
put_text t rest = length t ∷ (t ++ rest)

put_texts : List Text → List ℕ → List ℕ
unfolding put_text
put_texts [] rest = rest
put_texts (t ∷ ts) rest = put_text t (put_texts ts rest)

abbrev get_text : List ℕ → Text × List ℕ
get_text [] = ([], [])
get_text (n ∷ s) = (take n s, drop n s)

abbrev get_texts : ℕ → List ℕ → List Text
get_texts zero s = []
get_texts (suc n) s = (get_text s).0 ∷ get_texts n (get_text s).1

get-put : (t : Text) (rest : List ℕ) → get_text (put_text t rest) ≡ (t, rest)
unfolding put_text
get-put t rest = rw (take_at (length t) t rest refl, drop_at (length t) t rest refl)

get-put_texts : (ts : List Text) (rest : List ℕ) → get_texts (length ts) (put_texts ts rest) ≡ ts
unfolding put_texts
get-put_texts [] rest = refl
get-put_texts (t ∷ ts) rest = rw (
  take_at (length t) t (put_texts ts rest) refl,
  drop_at (length t) t (put_texts ts rest) refl,
  get-put_texts ts rest,
)

abbrev flag : Bool → ℕ
flag true = 1
flag false = 0

abbrev is_flag : ℕ → Bool
is_flag zero = false
is_flag (suc n) = true

flag_back : (b : Bool) → is_flag (flag b) ≡ b
flag_back true = refl
flag_back false = refl

texts_of : Keyfile → List Text
texts_of k = k.label ∷ k.created_at ∷ k.key_data ∷ k.public_key ∷ k.caller_rules

pub encoded : Keyfile → List ℕ
unfolding put_texts texts_of
encoded k = k.version ∷ flag k.require_touch ∷ length (texts_of k) ∷ put_texts (texts_of k) []

abbrev keyfile_of_texts : ℕ → Bool → List Text → Option Keyfile
keyfile_of_texts v t (l ∷ c ∷ d ∷ p ∷ rules) = some (record {
  version = v;
  label = l;
  require_touch = t;
  created_at = c;
  key_data = d;
  public_key = p;
  caller_rules = rules;
})
keyfile_of_texts v t _ = none

abbrev pub keyfile_decoded : List ℕ → Option Keyfile
keyfile_decoded (v ∷ b ∷ n ∷ s) = keyfile_of_texts v (is_flag b) (get_texts n s)
keyfile_decoded _ = none

abbrev pub format : Format
format = record {
  encode = λ k. some (encoded k);
  decode = keyfile_decoded;
  to_base64 = λ b. b;
  from_base64 = λ t. some t;
}

decoded_back : (k : Keyfile) → keyfile_decoded (encoded k) ≡ some k
unfolding encoded texts_of
decoded_back k =
    ap (λ ts. keyfile_of_texts k.version (is_flag (flag k.require_touch)) ts)
      (get-put_texts (texts_of k) [])
    ∙ ap (λ b. keyfile_of_texts k.version b (texts_of k)) (flag_back k.require_touch)

pub format-IsFaithful : IsFaithful format
format-IsFaithful = record {
  encoding = encoded;
  encodes = λ k. refl;
  decodes = decoded_back;
  base64 = λ b. refl;
}

same_answer :
    {a b c d : List ℕ}
    → ◌≡◌ {A = Result Text (List ℕ × List ℕ)} (ok (a, c)) (ok (b, d))
    → (a ≡ b) × (c ≡ d)
same_answer h = (cc, cc)

pub enclave-IsConsistent : IsConsistent enclave
unfolding is_empty
enclave-IsConsistent = record {
  filled = λ touch b raw h. rw (← (same_answer h).0) refl;
  agrees = λ touch b raw h. rw ((same_answer h).1) refl;
}

abbrev pub no_faults : Faults
no_faults = record {
  stat_error = none;
  create_error = none;
  write_error = none;
  discard_error = none;
  created_at = codes "2026-01-01T00:00:00Z";
}

abbrev pub tool_rules : List CallerRule
tool_rules = rule rule_path (codes "/opt/tool") ∷ []

pub parsed_rules : parse_key_callers (codes " /opt/tool,") ≡ ok tool_rules
unfolding parse_key_callers is_empty trim_space trim_right trim_left is_space split
    parse_caller_rule cut has_prefix
parsed_rules = refl

abbrev pub other_file : List Entry
other_file = record { name = codes "home.json"; node = file [] } ∷ []

free_name : has_entry (file_name (codes "work")) other_file ≡ false
unfolding has_entry equal
free_name = refl

pub ready :
    IsReady enclave no_faults (codes "work") (codes " /opt/tool,") true tool_rules other_file
ready = record {
  allowed = valid_work;
  parsed = parsed_rules;
  free = free_name;
  stat = refl;
  create = refl;
  write = refl;
  blob = 7 ∷ [];
  raw = marshal_ec_public_key base_point;
  key = base_point;
  generated = refl;
  on_curve = base_point_back;
}

generate-load_keyfile_example :
    (k : Key) × (bytes : List ℕ) × (generate format enclave no_faults
        (codes "work")
        true
        tool_rules
        other_file
      ≡ (ok k, other_file ++ record { name = file_name (codes "work"); node = file bytes } ∷ []))
    × (load_keyfile format enclave (key_path (codes "/keys") (codes "work")) (ok bytes) ≡ ok k)
generate-load_keyfile_example =
    generate-load_keyfile format enclave no_faults (codes "/keys") (codes "work")
      (codes " /opt/tool,") true tool_rules other_file format-IsFaithful enclave-IsConsistent ready

abbrev pub no_removal_fails : Text → Option Text
no_removal_fails name = none

abbrev stored_key : Keyfile
stored_key = record {
  version = 1;
  label = codes "work";
  require_touch = true;
  created_at = [];
  key_data = 7 ∷ [];
  public_key = raw_point;
  caller_rules = [];
}

abbrev two_files : List Entry
two_files =
    record { name = codes "notes.txt"; node = file [] }
    ∷ record { name = codes "work.json"; node = file (encoded stored_key) }
    ∷ []

abbrev listed_key : Key
listed_key = record {
  label = codes "work";
  require_touch = true;
  caller_rules = [];
  public_key = base_point;
  key_data = 7 ∷ [];
  sign_fn = none;
}

one_listed : list format enclave (codes "/keys") (entries two_files) ≡ ok (listed_key ∷ [])
unfolding list encoded has_suffix equal is_empty load_keyfile trim_suffix base split join clean
    parse_ec_public_key is_on_curve from_bytes se_public_key_of marshal_ec_public_key to_bytes
    reload_rules
one_listed = refl

list-IsSorted_example :
    IsSorted (listed_key ∷ [])
    × ((p : Key → Bool)
        → count p (listed_key ∷ []) ≡ occurrences format enclave (codes "/keys") p two_files)
list-IsSorted_example =
    list-IsSorted format enclave (codes "/keys") two_files (listed_key ∷ []) one_listed
