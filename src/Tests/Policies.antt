-- ===== src/Tests/Policies.antt =====
-- Policies on two callers and a sequence of requests.
use touchid_agent.Policy.Rate.{check_rate, allow, bucket_of, store_bucket}
use touchid_agent.Prelude.{
  ℕ, ◌*◌, ◌^◌, ◌≤◌, pos, true, false, List, [], ◌∷◌, some, ok, count, ◌≡◌, ◌↔◌, ◌⊎◌, refl, arith,
}
use touchid_agent.Text.{
  Text, codes, is_empty, equal, cut, trim_space, trim_right, trim_left, is_space, lower_rune, split,
  has_prefix,
}
use touchid_agent.Policy.{
  CallerRule, rule, rule_path, rule_team_id, PeerPolicy, new_peer_policy, check_caller,
  rate_limit_ceiling, is_allowed_caller, matches, path_matches,
}
use touchid_agent.Policy.Parse.{parse_caller_rule, parse_key_callers, reload_rules, rule_strings}
use touchid_agent.Policy.Parse.RoundTrip.{reload-parse_key_callers}
use touchid_agent.Policy.Authorize.{
  check_caller_iff, default_policy_iff, unsigned_needs_path, SomeMatch, SomePath, IsSshTool,
}
use touchid_agent.Policy.Rate.Window.{rate_window, signed_in, admissions}
use touchid_agent.Tests.Samples.{no_links, ssh_peer, tool_peer}

abbrev tool_rules : List CallerRule
tool_rules = rule rule_path (codes "/opt/tool") ∷ []

abbrev policy : PeerPolicy
policy = new_peer_policy true (pos 2) tool_rules

tool_passes : check_caller no_links (some policy) tool_peer ≡ ok tt
unfolding check_caller new_peer_policy is_allowed_caller matches path_matches is_empty equal
tool_passes = refl

check_caller_iff_example : (check_caller no_links (some policy) tool_peer ≡ ok tt) ↔ (
    (policy.enforce ≡ false)
    ⊎ (SomeMatch no_links policy.rules tool_peer
        × ((policy.require_hardened ≡ false) ⊎ (tool_peer.hardened ≡ true))))
check_caller_iff_example = check_caller_iff no_links policy tool_peer

default_policy_iff_example :
    (check_caller no_links (some (new_peer_policy true (pos 10) [])) ssh_peer ≡ ok tt)
    ↔ ((ssh_peer.apple_platform ≡ true) × IsSshTool ssh_peer.signing_id)
default_policy_iff_example = default_policy_iff no_links (pos 10) ssh_peer

unsigned_needs_path_example : SomePath no_links policy.rules tool_peer
unsigned_needs_path_example =
    unsigned_needs_path no_links policy tool_peer (unfold new_peer_policy in refl)
      (record { no_platform = refl; no_anchor = refl; no_hash = refl }) tool_passes

-- Three requests within two seconds, and one more behind the minute.
abbrev requests : List (Text × ℕ)
requests =
    (codes "work", 1)
    ∷ (codes "work", 10 ^ 9)
    ∷ (codes "work", 2 * 10 ^ 9)
    ∷ (codes "work", 90 * 10 ^ 9)
    ∷ []

rate_window_example :
    (count (signed_in (codes "work") (3 * 10 ^ 9)) (admissions policy requests) ≤ 2)
    × (count (signed_in (codes "work") (3 * 10 ^ 9)) (admissions policy requests)
        ≤ rate_limit_ceiling)
rate_window_example =
    rate_window true 2 tool_rules requests (codes "work") (3 * 10 ^ 9) (omega arith)
      (omega arith, (omega arith, (omega arith, (omega arith, tt))))

two_of_three : count (signed_in (codes "work") (3 * 10 ^ 9)) (admissions policy requests) ≡ 2
unfolding admissions new_peer_policy check_rate allow bucket_of equal store_bucket
two_of_three = refl

abbrev two_rules : List CallerRule
two_rules = rule rule_path (codes "/usr/bin/ssh") ∷ rule rule_team_id (codes "ABCDE12345") ∷ []

parsed_list : parse_key_callers (codes "/usr/bin/ssh, team-id:ABCDE12345,") ≡ ok two_rules
unfolding parse_key_callers is_empty trim_space trim_right trim_left is_space split
    parse_caller_rule cut has_prefix equal lower_rune
parsed_list = refl

reload-parse_key_callers_example : reload_rules (rule_strings two_rules) ≡ ok two_rules
reload-parse_key_callers_example =
    reload-parse_key_callers (codes "/usr/bin/ssh, team-id:ABCDE12345,") two_rules parsed_list
