-- ===== src/Policy/Parse/RoundTrip.antt =====
-- `parseCallerRule` and `CallerRule.String` of policy.go, `parseKeyCallers` of main.go: rules as texts.
use touchid_agent.Prelude.{
  true, false, List, [], ◌∷◌, ◌++◌, Option, none, some, Result, ok, ◌>>=◌, ◌≡◌, refl, arith,
  >>=-eq-ok, Bool-cases, inl, inr, ◌≢◌,
}
use touchid_agent.Text.{
  Text, codes, equal, is_empty, has_prefix, trim_space, cut, to_lower, lower_rune, split, is_space,
  trim_left, trim_right,
}
use touchid_agent.Text.Trim.{trim_space_idem}
use touchid_agent.Policy.{
  RuleKind, CallerRule, rule, rule_apple_platform_signing_id, rule_team_id, rule_signing_id,
  rule_cd_hash, rule_path,
}
use touchid_agent.Policy.Parse.{
  RuleError, parse_caller_rule, parse_cut, rule_of_kind, to_string, prefix_of, parse_parts,
  parse_key_callers, reload_rules, rule_strings,
}

-- What the parser guarantees of a rule: its value is trimmed and not empty, and its kind is one that
-- a text can name.
record IsPlain (r : CallerRule) : Type 0 where
  tight : trim_space r.value ≡ r.value
  filled : is_empty r.value ≡ false
  nameable : r.kind ≢ rule_apple_platform_signing_id

module _ (value : Text) (t : trim_space value ≡ value) (f : is_empty value ≡ false) where
  plain : (k : RuleKind) → k ≢ rule_apple_platform_signing_id → IsPlain (rule k value)
  plain k n = record { tight = t; filled = f; nameable = n }

  rule_of_kind-IsPlain :
      (word kind : Text) (r : CallerRule) → rule_of_kind word kind value ≡ ok r → IsPlain r
  unfolding rule_of_kind
  rule_of_kind-IsPlain word kind r h = ground (
    arith,
    plain rule_team_id (λ e. cc),
    plain rule_signing_id (λ e. cc),
    plain rule_cd_hash (λ e. cc),
    plain rule_path (λ e. cc),
  )

  parse_cut-some :
      (line kind : Text) (r : CallerRule)
      → rule_of_kind (to_lower (trim_space kind)) kind value ≡ ok r
      → parse_cut line (some (kind, value)) ≡ ok r
  unfolding parse_cut
  parse_cut-some line kind r h = rw (t, f) h

  -- The text of a rule is cut at its own colon, whatever the value holds.
  parse-prefixed :
      (k : RuleKind)
      → k ≢ rule_apple_platform_signing_id
      → parse_caller_rule (prefix_of k ++ value) ≡ ok (rule k value)
  unfolding parse_caller_rule cut trim_space trim_left trim_right is_space lower_rune equal
      prefix_of
  parse-prefixed rule_team_id n = parse_cut-some _ (codes "team-id") _ refl
  parse-prefixed rule_signing_id n = parse_cut-some _ (codes "signing-id") _ refl
  parse-prefixed rule_cd_hash n = parse_cut-some _ (codes "cdhash") _ refl
  parse-prefixed rule_path n = parse_cut-some _ (codes "path") _ refl
  parse-prefixed rule_apple_platform_signing_id n = absurd (n refl)

parse_caller_rule-to_string : (r : CallerRule) → IsPlain r → parse_caller_rule (to_string r) ≡ ok r
unfolding to_string
parse_caller_rule-to_string r h = parse-prefixed r.value h.tight h.filled r.kind h.nameable

has_prefix-filled : (line : Text) → has_prefix line (codes "/") ≡ true → is_empty line ≡ false
unfolding has_prefix is_empty
has_prefix-filled [] h = cc
has_prefix-filled (c ∷ line) h = refl

parse_cut-IsPlain :
    (line : Text) (pieces : Option (Text × Text)) (r : CallerRule)
    → trim_space line ≡ line
    → parse_cut line pieces ≡ ok r
    → IsPlain r
unfolding parse_cut
parse_cut-IsPlain line none r t h = elim (Bool-cases (has_prefix line (codes "/"))) [
  | inl e ↦ ground (arith, plain line t (has_prefix-filled line e) rule_path (λ e. cc))
  | inr e ↦ ground arith
]
parse_cut-IsPlain line (some (kind, value)) r t h =
    elim (Bool-cases (is_empty (trim_space value))) [
      | inl e ↦ ground arith
      | inr e ↦
          rule_of_kind-IsPlain (trim_space value) (trim_space_idem value) e
            (to_lower (trim_space kind)) kind r (ground arith)
    ]

-- A rule that is parsed from a trimmed line is parsed back, unchanged, from its own text.
pub parse-to_string :
    (line : Text) (r : CallerRule)
    → trim_space line ≡ line
    → parse_caller_rule line ≡ ok r
    → parse_caller_rule (to_string r) ≡ ok r
parse-to_string line r t h =
    parse_caller_rule-to_string r
      (parse_cut-IsPlain line (cut line b':') r t (unfold parse_caller_rule in h))

abbrev Rules : Type 0
Rules = Result RuleError (List CallerRule)

same_rules : {a b : List CallerRule} → ◌≡◌ {A = Rules} (ok a) (ok b) → a ≡ b
same_rules e = cc

reload-cons :
    (r : CallerRule) (rs : List CallerRule)
    → parse_caller_rule (to_string r) ≡ ok r
    → reload_rules (rule_strings rs) ≡ ok rs
    → reload_rules (rule_strings (r ∷ rs)) ≡ ok (r ∷ rs)
unfolding reload_rules
reload-cons r rs one more = rw (one, more)

parse_parts-reload :
    (parts : List Text) (rules : List CallerRule)
    → parse_parts parts ≡ ok rules
    → reload_rules (rule_strings rules) ≡ ok rules
unfolding parse_parts reload_rules
parse_parts-reload [] rules h = ground arith
parse_parts-reload (part ∷ rest) rules h = elim (Bool-cases (is_empty (trim_space part))) [
  | inl e ↦ parse_parts-reload rest rules (rw e at h)
  | inr e ↦
      let (r, one, later) =
        >>=-eq-ok (parse_caller_rule (trim_space part)) (λ r. do rs ← parse_parts rest; ok (r ∷ rs))
          (rw e at h) in
      let (rs, more, same) = >>=-eq-ok (parse_parts rest) (λ rs. ok (r ∷ rs)) later in
      rw (← same_rules same) (
        reload-cons r rs (parse-to_string (trim_space part) r (trim_space_idem part) one)
          (parse_parts-reload rest rs more))
]

-- The rules that `-key-callers` binds a key to are those that its key file gives back: `Generate`
-- writes their texts, and `loadKeyfile` parses these to the same rules.
pub reload-parse_key_callers :
    (spec : Text) (rules : List CallerRule)
    → parse_key_callers spec ≡ ok rules
    → reload_rules (rule_strings rules) ≡ ok rules
unfolding parse_key_callers reload_rules
reload-parse_key_callers spec rules h = elim (Bool-cases (is_empty (trim_space spec))) [
  | inl e ↦ ground arith
  | inr e ↦ parse_parts-reload (split (trim_space spec) b',') rules (rw e at h)
]
