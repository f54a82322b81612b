-- ===== src/Store/Label.antt =====
-- `validateLabel` of main.go, and the names of key files: `FilesystemKeyStore.path` of keystore_fs.go.
use touchid_agent.Prelude.{
  ◌∙◌, ℕ, ◌+◌, Bool, false, ◌||◌, [], ◌∷◌, ◌++◌, Result, ok, err, ◌≡◌, refl, ap, arith, ltb, length,
  length-append, All-append, Bool-cases, inl, inr, if◌then◌else◌, sym,
}
use touchid_agent.Text.{Text, codes, equal, equal_iff, equal_refl, is_empty, contains_rune}
use touchid_agent.FilePath.{slash, base, join}
use touchid_agent.FilePath.Names.{NoSlash, IsPlain, base-join}

pub data LabelError : Type 0 where
  empty_label has_colon has_separator too_long : LabelError

-- The bytes of a text in UTF-8.
utf8_size : ℕ → ℕ
utf8_size c = if ltb c 0x80 then 1 else if ltb c 0x800 then 2 else if ltb c 0x10000 then 3 else 4

unfoldable pub byte_length : Text → ℕ
unfolding utf8_size
byte_length [] = 0
byte_length (c ∷ s) = utf8_size c + byte_length s

unfoldable pub validate_label : Text → Result LabelError (Unit {0})
validate_label label =
    if is_empty label
    then err empty_label
    else if contains_rune label b':'
    then err has_colon
    else if contains_rune label b'/' || contains_rune label b'\\'
    then err has_separator
    else if ltb 64 (byte_length label)
    then err too_long
    else ok tt

abbrev pub json_suffix : Text
json_suffix = codes ".json"

-- `label+".json"`
abbrev pub file_name : Text → Text
file_name label = label ++ json_suffix

-- strings.HasSuffix, and strings.TrimSuffix
unfoldable pub has_suffix : Text → Text → Bool
has_suffix [] suffix = is_empty suffix
has_suffix (c ∷ s) suffix = equal (c ∷ s) suffix || has_suffix s suffix

unfoldable pub trim_suffix : Text → Text → Text
trim_suffix [] suffix = []
trim_suffix (c ∷ s) suffix =
    let rest = trim_suffix s suffix in if equal (c ∷ s) suffix then [] else c ∷ rest

-- The path of a label's key file, as `FilesystemKeyStore.path` makes it.
unfoldable pub key_path : Text → Text → Text
key_path dir label = join dir (file_name label)

pub contains_rune-Lacks : (s : Text) → contains_rune s slash ≡ false → NoSlash s
unfolding contains_rune
contains_rune-Lacks [] h = tt
contains_rune-Lacks (c ∷ s) h = (ground arith, contains_rune-Lacks s (ground arith))

named_filled : (label : Text) → is_empty (file_name label) ≡ false
unfolding is_empty
named_filled [] = refl
named_filled (c ∷ s) = refl

named_long :
    (label : Text)
    → is_empty label ≡ false
    → (equal (file_name label) (codes ".") ≡ false) × (equal (file_name label) (codes "..") ≡ false)
unfolding equal is_empty
named_long [] f = absurd (cc)
named_long (c ∷ []) f = ground arith
named_long (c ∷ d ∷ []) f = ground arith
named_long (c ∷ d ∷ e ∷ s) f = ground arith

pub valid_label :
    (label : Text)
    → validate_label label ≡ ok tt
    → (is_empty label ≡ false) × (contains_rune label slash ≡ false)
unfolding validate_label
valid_label label h = ground arith

file_name-IsPlain : (label : Text) → validate_label label ≡ ok tt → IsPlain (file_name label)
file_name-IsPlain label h =
    let (full, clear) = valid_label label h in
    let (not_dot, not_dots) = named_long label full in
    record {
      no_slash = All-append _ label json_suffix (contains_rune-Lacks label clear) (omega arith);
      filled = named_filled label;
      not_dot = not_dot;
      not_dots = not_dots;
    }

longer_not_equal : (c : ℕ) (s suffix : Text) → equal (c ∷ (s ++ suffix)) suffix ≡ false
longer_not_equal c s suffix = elim (Bool-cases (equal (c ∷ (s ++ suffix)) suffix)) [
  | inr e ↦ e
  | inl e ↦ absurd (
      omega (
        arith,
        ap (λ (t : Text). length t) ((equal_iff (c ∷ (s ++ suffix)) suffix).0 e),
        length-append {0} s suffix,
      ))
]

trim_suffix-file_name : (label : Text) → trim_suffix (file_name label) json_suffix ≡ label
unfolding trim_suffix
trim_suffix-file_name [] = unfold equal in refl
trim_suffix-file_name (c ∷ s) =
    rw (longer_not_equal c s json_suffix) (ap (λ (t : Text). c ∷ t) (trim_suffix-file_name s))

-- Different labels have different files.
pub equal-file_name : (l m : Text) → equal (file_name l) (file_name m) ≡ equal l m
equal-file_name l m = elim (Bool-cases (equal l m)) [
  | inl same ↦ rw (same, (equal_iff l m).0 same) (equal_refl (file_name m))
  | inr other ↦ elim (Bool-cases (equal (file_name l) (file_name m))) [
    | inr e ↦ e ∙ sym other
    | inl e ↦
        let alike : l ≡ m =
          sym (trim_suffix-file_name l)
          ∙ ap (λ t. trim_suffix t json_suffix) ((equal_iff (file_name l) (file_name m)).0 e)
          ∙ trim_suffix-file_name m in
        absurd (ground (arith, equal_iff l m))
  ]
]

-- The key file of a valid label is in the store's directory, whatever that is called: its path ends in
-- the label and ".json", and the label is read off that name again.
pub label_of_path :
    (dir label : Text)
    → validate_label label ≡ ok tt
    → (base (key_path dir label) ≡ file_name label)
      × (trim_suffix (base (key_path dir label)) json_suffix ≡ label)
unfolding key_path
label_of_path dir label h =
    let same = base-join dir (file_name label) (file_name-IsPlain label h) in
    (same, rw same (trim_suffix-file_name label))
