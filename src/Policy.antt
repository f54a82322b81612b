-- ===== src/Policy.antt =====
-- policy.go, and its rules: which callers may sign. The parser of rules, the rate limiter and the
-- theorems are in the modules below.
pub mod Parse
pub mod Rate
pub mod Authorize
use touchid_agent.Prelude.{
  ℕ, ℤ, pos, leb_ℤ, Bool, true, false, not, ◌&&◌, ◌||◌, List, [], ◌∷◌, ◌++◌, Option, none, some,
  Result, ok, err, any, if◌then◌else◌,
}
use touchid_agent.Text.{Text, codes, equal, equal_fold, is_empty}
use touchid_agent.Peer.{Peer}

abbrev pub rate_limit_ceiling : ℕ
rate_limit_ceiling = 120

pub data RuleKind : Type 0 where
  rule_apple_platform_signing_id rule_team_id rule_signing_id rule_cd_hash rule_path : RuleKind

pub record CallerRule : Type 0 where
  pub kind : RuleKind
  pub value : Text

abbrev pub rule : RuleKind → Text → CallerRule
rule k v = record { kind = k; value = v }

abbrev pub default_caller_rules : List CallerRule
default_caller_rules =
    rule rule_apple_platform_signing_id (codes "com.apple.ssh")
    ∷ rule rule_apple_platform_signing_id (codes "com.apple.scp")
    ∷ rule rule_apple_platform_signing_id (codes "com.apple.sftp")
    ∷ rule rule_apple_platform_signing_id (codes "com.apple.ssh-keygen")
    ∷ []

-- filepath.EvalSymlinks: the file system's answer, `none` on an error
abbrev pub Symlinks : Type 0
Symlinks = Text → Option Text

resolved_or : Option Text → Text → Text
resolved_or (some resolved) allowed = resolved
resolved_or none allowed = allowed

unfoldable pub path_matches : Symlinks → Text → Text → Bool
unfolding resolved_or
path_matches links peer_path allowed =
    if is_empty peer_path || is_empty allowed
    then false
    else equal peer_path (resolved_or (links allowed) allowed)

rule_matches : Symlinks → RuleKind → Text → Peer → Bool
rule_matches links rule_apple_platform_signing_id v p = p.apple_platform && equal p.signing_id v
rule_matches links rule_team_id v p = p.apple_anchored && equal p.team_id v
rule_matches links rule_signing_id v p = p.apple_anchored && equal p.signing_id v
rule_matches links rule_cd_hash v p = not (is_empty p.cd_hash) && equal_fold p.cd_hash v
rule_matches links rule_path v p = path_matches links p.path v

-- CallerRule.matches
unfoldable pub matches : Symlinks → CallerRule → Peer → Bool
unfolding rule_matches
matches links r p = rule_matches links r.kind r.value p

unfoldable pub matches_any_rule : Symlinks → List CallerRule → Peer → Bool
matches_any_rule links rules p = any (λ r. matches links r p) rules

-- A `rateBucket` is its times; `rates` maps a label to its bucket.
pub record PeerPolicy : Type 0 where
  pub rules : List CallerRule
  pub enforce : Bool
  pub require_hardened : Bool
  pub rate_limit : ℤ
  pub rates : List (Text × List ℕ)

unfoldable pub new_peer_policy : Bool → ℤ → List CallerRule → PeerPolicy
new_peer_policy enforce rate_limit extra_rules = record {
  rules = default_caller_rules ++ extra_rules;
  enforce = enforce;
  require_hardened = false;
  rate_limit =
      if leb_ℤ rate_limit (pos rate_limit_ceiling) then rate_limit else pos rate_limit_ceiling;
  rates = [];
}

is_path_rule : RuleKind → Bool
is_path_rule rule_path = true
is_path_rule _ = false

collect_paths : List CallerRule → List Text
collect_paths [] = []
collect_paths (r ∷ rs) =
    let rest = collect_paths rs in if is_path_rule r.kind then r.value ∷ rest else rest

-- A nil policy is `none`.
unfoldable pub path_rules : Option PeerPolicy → List Text
unfolding collect_paths is_path_rule
path_rules none = []
path_rules (some p) = collect_paths p.rules

unfoldable pub is_allowed_caller : Symlinks → Option PeerPolicy → Peer → Bool
is_allowed_caller links none peer = false
is_allowed_caller links (some p) peer = any (λ r. matches links r peer) p.rules

pub data CallerError : Type 0 where
  unidentified : ℤ → CallerError
  not_in_allowlist : Text → ℤ → Text → Text → Bool → CallerError
  not_hardened : Text → ℤ → CallerError

check_identified : Peer → Result CallerError (Unit {0})
check_identified peer =
    if is_empty peer.path
    then err (unidentified peer.pid)
    else err (not_in_allowlist peer.path peer.pid peer.signing_id peer.team_id peer.signed)

check_hardened : PeerPolicy → Peer → Result CallerError (Unit {0})
check_hardened p peer =
    if p.require_hardened && not peer.hardened then err (not_hardened peer.path peer.pid) else ok tt

unfoldable pub check_caller : Symlinks → Option PeerPolicy → Peer → Result CallerError (Unit {0})
unfolding check_identified check_hardened
check_caller links none peer = ok tt
check_caller links (some p) peer =
    if not p.enforce
    then ok tt
    else if not (is_allowed_caller links (some p) peer)
    then check_identified peer
    else check_hardened p peer
