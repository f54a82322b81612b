-- ===== src/Policy/Parse.antt =====
-- The texts of caller rules: `parseCallerRule`, `CallerRule.String`, and the three loops that parse
-- a list of rules (`loadAllowedCallers`, `parseKeyCallers`, and the one in `loadKeyfile`).
pub mod RoundTrip
use touchid_agent.Prelude.{
  ℕ, suc, ◌+◌, Bool, true, false, ◌||◌, List, [], ◌∷◌, ◌++◌, Option, none, some, Result, ok, err,
  ◌>>=◌, map, if◌then◌else◌,
}
use touchid_agent.Text.{Text, codes, equal, is_empty, has_prefix, trim_space, cut, to_lower, split}
use touchid_agent.Policy.{
  RuleKind, CallerRule, rule, rule_apple_platform_signing_id, rule_team_id, rule_signing_id,
  rule_cd_hash, rule_path,
}

pub data RuleError : Type 0 where
  unrecognized_rule : Text → RuleError
  empty_value : Text → RuleError
  unknown_rule_type : Text → RuleError

rule_of_kind : Text → Text → Text → Result RuleError CallerRule
rule_of_kind word kind value =
    if equal word (codes "team-id") || equal word (codes "teamid")
    then ok (rule rule_team_id value)
    else if equal word (codes "signing-id") || equal word (codes "signingid")
    then ok (rule rule_signing_id value)
    else if equal word (codes "cdhash")
    then ok (rule rule_cd_hash value)
    else if equal word (codes "path")
    then ok (rule rule_path value)
    else err (unknown_rule_type kind)

parse_cut : Text → Option (Text × Text) → Result RuleError CallerRule
parse_cut line none =
    if has_prefix line (codes "/") then ok (rule rule_path line) else err (unrecognized_rule line)
parse_cut line (some (kind, value)) =
    if is_empty (trim_space value)
    then err (empty_value line)
    else rule_of_kind (to_lower (trim_space kind)) kind (trim_space value)

unfoldable pub parse_caller_rule : Text → Result RuleError CallerRule
unfolding parse_cut rule_of_kind
parse_caller_rule line = parse_cut line (cut line b':')

prefix_of : RuleKind → Text
prefix_of rule_team_id = codes "team-id:"
prefix_of rule_signing_id = codes "signing-id:"
prefix_of rule_cd_hash = codes "cdhash:"
prefix_of rule_path = codes "path:"
prefix_of rule_apple_platform_signing_id = codes "apple-platform-signing-id:"

-- CallerRule.String
unfoldable pub to_string : CallerRule → Text
unfolding prefix_of
to_string r = prefix_of r.kind ++ r.value

-- The rest of the rules are read only behind a rule that parses.
with_rule :
    ℕ
    → Result RuleError CallerRule
    → Result (ℕ × RuleError) (List CallerRule)
    → Result (ℕ × RuleError) (List CallerRule)
with_rule line_no (err e) later = err (line_no, e)
with_rule line_no (ok r) later = do rs ← later; ok (r ∷ rs)

-- The scanner's lines; the number is that of the line before. An error carries its line's number.
unfoldable pub load_lines : ℕ → List Text → Result (ℕ × RuleError) (List CallerRule)
unfolding with_rule
load_lines line_no [] = ok []
load_lines line_no (text ∷ rest) =
    let line = trim_space text in
    let later = load_lines (suc line_no) rest in
    if is_empty line || has_prefix line (codes "#")
    then later
    else with_rule (suc line_no) (parse_caller_rule line) later

pub data LoadError : Type 0 where
  cannot_open : Text → LoadError
  bad_line : ℕ → RuleError → LoadError
  scan_failed : Text → LoadError

-- What the scanner has read of the file, and the error that it stopped at, if any.
pub record Scanned : Type 0 where
  pub lines : List Text
  pub error : Option Text

-- `return rules, scanner.Err()`: the callers drop the rules where there is an error.
scanned_rules :
    Result (ℕ × RuleError) (List CallerRule) → Option Text → Result LoadError (List CallerRule)
scanned_rules (err (line_no, e)) scan_error = err (bad_line line_no e)
scanned_rules (ok rules) none = ok rules
scanned_rules (ok rules) (some e) = err (scan_failed e)

unfoldable pub load_allowed_callers : Result Text Scanned → Result LoadError (List CallerRule)
unfolding scanned_rules
load_allowed_callers (err e) = err (cannot_open e)
load_allowed_callers (ok file) = scanned_rules (load_lines 0 file.lines) file.error

parse_parts : List Text → Result RuleError (List CallerRule)
parse_parts [] = ok []
parse_parts (part ∷ rest) =
    let later = parse_parts rest in
    let parsed : Result RuleError (List CallerRule) = do
      r ← parse_caller_rule (trim_space part)
      rs ← later
      ok (r ∷ rs)
    in if is_empty (trim_space part) then later else parsed

-- `parseKeyCallers`
unfoldable pub parse_key_callers : Text → Result RuleError (List CallerRule)
unfolding parse_parts
parse_key_callers spec =
    if is_empty (trim_space spec) then ok [] else parse_parts (split (trim_space spec) b',')

-- The loop of `loadKeyfile` over the rules of a key file, and the loop of `Generate` that wrote them.
unfoldable pub reload_rules : List Text → Result RuleError (List CallerRule)
reload_rules [] = ok []
reload_rules (s ∷ rest) = do r ← parse_caller_rule s; rs ← reload_rules rest; ok (r ∷ rs)

abbrev pub rule_strings : List CallerRule → List Text
rule_strings rules = map to_string rules
