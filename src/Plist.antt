-- ===== src/Plist.antt =====
-- plist_darwin.go: the launch agent's property list as it is read, what kind it is, and the flags that
-- are carried over from it. What plutil and `encoding/json` make of the file is an argument.
pub mod Render
pub mod Flags
pub mod Atomic
pub mod Xml
pub mod Commands
use touchid_agent.Prelude.{
  Bool, true, false, ◌&&◌, ◌||◌, List, [], ◌∷◌, Option, none, some, Result, ok, err, any,
  if◌then◌else◌,
}
use touchid_agent.Text.{Text, codes, equal, is_empty}

abbrev pub plist_label : Text
plist_label = codes "touchid-agent"

abbrev pub plist_sockets_key : Text
plist_sockets_key = codes "Listeners"

unfoldable pub is_preserved : Text → Bool
is_preserved a = any (equal a) (
    codes "-audit-log"
    ∷ codes "-no-peer-check"
    ∷ codes "-peer-check"
    ∷ codes "-rate-limit"
    ∷ codes "-allowed-callers"
    ∷ codes "-v"
    ∷ [])

unfoldable pub takes_value : Text → Bool
takes_value a =
    any (equal a)
      (codes "-audit-log" ∷ codes "-rate-limit" ∷ codes "-allowed-callers" ∷ codes "-l" ∷ [])

pub data PlistMode : Type 0 where
  mode_unknown mode_old_style mode_socket_activated mode_missing : PlistMode

pub record ParsedPlist : Type 0 where
  pub label : Text
  pub program_arguments : List Text
  pub has_sockets : Bool
  pub socket_path : Text
  pub has_run_at_load : Bool
  pub has_keep_alive : Bool
  pub standard_out_path : Text
  pub standard_error_path : Text

mode_of : ParsedPlist → Bool → Bool → PlistMode
mode_of p has_l has_launchd =
    if has_launchd && p.has_sockets
    then mode_socket_activated
    else if has_l && (p.has_run_at_load || p.has_keep_alive)
    then mode_old_style
    else if has_l
    then mode_old_style
    else mode_unknown

-- `classify`, on a plist that may be nil
unfoldable pub classify : Option ParsedPlist → PlistMode
unfolding mode_of
classify none = mode_missing
classify (some p) =
    mode_of p (any (equal (codes "-l")) p.program_arguments)
      (any (equal (codes "-launchd")) p.program_arguments)

-- The values of JSON that matter here.
mutual
  pub data Json : Type 0 where
    text : Text → Json
    flag : Bool → Json
    array : Elements → Json
    object : Fields → Json
    other : Json

  pub data Elements : Type 0 where
    no_elements : Elements
    element : Json → Elements → Elements

  pub data Fields : Type 0 where
    no_fields : Fields
    field : Text → Json → Fields → Fields

pub find : Text → Fields → Json
find name no_fields = other
find name (field n v rest) = let later = find name rest in if equal n name then v else later

text_or_empty : Json → Text
text_or_empty (text t) = t
text_or_empty _ = []

is_true : Json → Bool
is_true (flag b) = b
is_true _ = false

-- `KeepAlive` is a truth value, or a dictionary of conditions.
keeps_alive : Json → Bool
keeps_alive (flag b) = b
keeps_alive (object f) = true
keeps_alive _ = false

onto_texts : Json → List Text → List Text
onto_texts (text t) ts = t ∷ ts
onto_texts _ ts = ts

texts_in : Elements → List Text
unfolding onto_texts
texts_in no_elements = []
texts_in (element v rest) = onto_texts v (texts_in rest)

arguments_in : Json → List Text
arguments_in (array vs) = texts_in vs
arguments_in _ = []

is_object : Json → Bool
is_object (object f) = true
is_object _ = false

member : Text → Json → Json
member name (object f) = find name f
member name _ = other

unfoldable pub parsed : Fields → ParsedPlist
unfolding find text_or_empty is_true keeps_alive texts_in arguments_in is_object member
parsed raw = record {
  label = text_or_empty (find (codes "Label") raw);
  program_arguments = arguments_in (find (codes "ProgramArguments") raw);
  has_sockets = is_object (find (codes "Sockets") raw);
  socket_path =
      text_or_empty
        (member (codes "SockPathName") (member plist_sockets_key (find (codes "Sockets") raw)));
  has_run_at_load = is_true (find (codes "RunAtLoad") raw);
  has_keep_alive = keeps_alive (find (codes "KeepAlive") raw);
  standard_out_path = text_or_empty (find (codes "StandardOutPath") raw);
  standard_error_path = text_or_empty (find (codes "StandardErrorPath") raw);
}

-- What reading a file that is there comes to, before its fields are looked at.
pub data Reading : Type 0 where
  stat_failed plutil_failed not_json : Text → Reading
  decoded : Fields → Reading

read_fields : Reading → Result Text (Option ParsedPlist)
read_fields (stat_failed e) = err e
read_fields (plutil_failed e) = err e
read_fields (not_json e) = err e
read_fields (decoded raw) = ok (some (parsed raw))

-- `none` is a file that does not exist.
unfoldable pub read_plist : Option Reading → Result Text (Option ParsedPlist)
unfolding read_fields
read_plist none = ok none
read_plist (some r) = read_fields r

-- The loop of `extractRunFlags`, behind the binary: a flag with a value takes two elements, and one
-- that stands last without its value is left out.
unfoldable pub run_flags : List Text → List Text
run_flags [] = []
run_flags (a ∷ []) =
    if is_preserved a && takes_value a then [] else if is_preserved a then a ∷ [] else []
run_flags (a ∷ v ∷ rest) =
    let behind_value = run_flags rest in
    let behind = run_flags (v ∷ rest) in
    if is_preserved a && takes_value a
    then a ∷ v ∷ behind_value
    else if is_preserved a
    then a ∷ behind
    else if takes_value a
    then behind_value
    else behind

unfoldable pub extract_run_flags : List Text → List Text
extract_run_flags [] = []
extract_run_flags (binary ∷ args) = run_flags args

unfoldable pub socket_from_old_args : List Text → Text
socket_from_old_args [] = []
socket_from_old_args (a ∷ []) = []
socket_from_old_args (a ∷ v ∷ rest) =
    let later = socket_from_old_args (v ∷ rest) in if equal a (codes "-l") then v else later

-- The running binary, if it is known, and what its path links to.
unfoldable pub resolve_binary_path : Option ParsedPlist → Option Text → (Text → Option Text) → Text
resolve_binary_path existing executable links = first_argument existing
  where
    own : Option Text → Text
    own none = codes "/usr/local/bin/touchid-agent"
    own (some exe) = elim (links exe) [ some real ↦ real | none ↦ exe ]

    chosen : List Text → Text
    chosen [] = own executable
    chosen (b ∷ args) = if is_empty b then own executable else b

    first_argument : Option ParsedPlist → Text
    first_argument none = own executable
    first_argument (some p) = chosen p.program_arguments
