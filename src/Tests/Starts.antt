-- ===== src/Tests/Starts.antt =====
-- An agent that starts under managed preferences.
use touchid_agent.Policy.Rate.{check_rate, allow, bucket_of}
use touchid_agent.Prelude.{
  pos, true, false, List, [], ◌∷◌, none, some, Result, ok, err, ◌≡◌, refl, ◌⊎◌, Option,
}
use touchid_agent.Text.{Text, codes, equal, is_empty}
use touchid_agent.Policy.{
  CallerRule, PeerPolicy, new_peer_policy, check_caller, is_allowed_caller, matches,
}
use touchid_agent.Policy.Parse.{LoadError}
use touchid_agent.Policy.Authorize.{SomeMatch}
use touchid_agent.Audit.{AuditLogger, new_stderr_audit_logger}
use touchid_agent.Agent.Stall.{no_stall}
use touchid_agent.Agent.Requests.{Agent, sign_for}
use touchid_agent.Config.{Settings, Managed, start, apply_managed_overrides, choose_audit}
use touchid_agent.Config.Preferences.{
  CfValue, cf_boolean, read_managed, cf_pref_string, cf_pref_bool, cf_pref_int,
}
use touchid_agent.Commands.Cli.{run_settings}
use touchid_agent.Commands.Cli.Verified.{unverified_by_choice}
use touchid_agent.Tests.Commands.{flags, chosen}
use touchid_agent.Config.Enforced.{managed_enforced, IsCapped}
use touchid_agent.Tests.Samples.{codec}
use touchid_agent.Tests.Signing.{world, request}

abbrev settings : Settings
settings = record {
  audit_log_path = [];
  peer_check = false;
  rate_limit = pos 500;
  allowed_callers_file = [];
  require_hardened = false;
}

abbrev managed : Managed
managed = record {
  managed_audit_log_path = none;
  managed_peer_check = some true;
  managed_rate_limit = none;
  managed_allowed_callers = none;
  managed_require_hardened = some true;
}

abbrev cannot_open : Text → Result Text AuditLogger
cannot_open path = err (codes "denied")

abbrev no_callers : Text → Result LoadError (List CallerRule)
no_callers path = ok []

abbrev agent : Agent
agent = record {
  policy = some (record (new_peer_policy true (pos 500) []) { require_hardened = true });
  audit = some new_stderr_audit_logger;
  stall = no_stall;
}

agent_starts : start managed settings (codes "/log") cannot_open no_callers ≡ ok agent
unfolding start choose_audit equal is_empty apply_managed_overrides
agent_starts = refl

agent_signs : (sign_for codec world request agent).0 ≡ ok (9 ∷ 5 ∷ [])
unfolding sign_for equal check_caller new_peer_policy is_allowed_caller matches check_rate allow
    bucket_of
agent_signs = refl

managed_enforced_example :
    (audit : AuditLogger) × (p : PeerPolicy) × (agent.audit ≡ some audit)
    × (agent.policy ≡ some p)
    × IsCapped (pos 500) p.rate_limit
    × SomeMatch world.links p.rules request.peer
    × (request.peer.hardened ≡ true)
managed_enforced_example =
    managed_enforced managed settings (codes "/log") cannot_open no_callers agent codec world
      request (9 ∷ 5 ∷ []) refl refl agent_starts agent_signs

-- An agent from the command line, without preferences
abbrev no_preferences : Text → Option CfValue
no_preferences key = none

abbrev served_agent : Agent
served_agent = record {
  policy = some (record (new_peer_policy true (pos 0) []) { require_hardened = false });
  audit = some new_stderr_audit_logger;
  stall = no_stall;
}

served_agent_starts :
    start (read_managed no_preferences) (run_settings flags) (codes "/log") cannot_open no_callers
    ≡ ok served_agent
unfolding start choose_audit equal is_empty apply_managed_overrides read_managed cf_pref_string
    run_settings cf_pref_bool cf_pref_int
served_agent_starts = refl

served_agent_signs : (sign_for codec world request served_agent).0 ≡ ok (9 ∷ 5 ∷ [])
unfolding sign_for equal check_caller new_peer_policy is_allowed_caller matches check_rate
served_agent_signs = refl

unverified_by_choice_example :
    ((p : PeerPolicy) × (served_agent.policy ≡ some p) × SomeMatch world.links p.rules request.peer)
    ⊎ (no_preferences (codes "peer_check") ≡ some (cf_boolean false))
    ⊎ (flags.no_peer_check ≡ true)
unverified_by_choice_example =
    unverified_by_choice (codes "/log") (codes "/tmp/agent.sock") none flags false
      (run_settings flags) no_preferences cannot_open no_callers served_agent codec world request
      (9 ∷ 5 ∷ []) chosen served_agent_starts served_agent_signs
