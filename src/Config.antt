-- ===== src/Config.antt =====
-- managed_darwin.go, and the part of `cmdRun` of main.go that builds the agent: the managed preferences
-- over the flags, the choice of the audit log, the policy.
pub mod Enforced
pub mod Preferences
use touchid_agent.Prelude.{
  ℤ, Bool, true, false, not, List, [], ◌∷◌, Option, none, some, Result, ok, err, ◌>>=◌,
  if◌then◌else◌,
}
use touchid_agent.Text.{Text, codes, equal, is_empty}
use touchid_agent.Policy.{CallerRule, PeerPolicy, new_peer_policy}
use touchid_agent.Policy.Parse.{LoadError}
use touchid_agent.Audit.{AuditLogger, new_stderr_audit_logger}
use touchid_agent.Agent.Stall.{no_stall}
use touchid_agent.Agent.Requests.{Agent}

-- The arguments of `cmdRun` that managed preferences may replace.
pub record Settings : Type 0 where
  pub audit_log_path : Text
  pub peer_check : Bool
  pub rate_limit : ℤ
  pub allowed_callers_file : Text
  pub require_hardened : Bool

-- What is read of each managed key: `none` where the key is absent or of another type.
pub record Managed : Type 0 where
  pub managed_audit_log_path : Option Text
  pub managed_peer_check : Option Bool
  pub managed_rate_limit : Option ℤ
  pub managed_allowed_callers : Option Text
  pub managed_require_hardened : Option Bool

abbrev pub overridden {ℓ} : {A : Type ℓ} → Option A → A → A
overridden none own = own
overridden (some v) own = v

unfoldable pub apply_managed_overrides : Managed → Settings → Settings
apply_managed_overrides m s = record {
  audit_log_path = overridden m.managed_audit_log_path s.audit_log_path;
  peer_check = overridden m.managed_peer_check s.peer_check;
  rate_limit = overridden m.managed_rate_limit s.rate_limit;
  allowed_callers_file = overridden m.managed_allowed_callers s.allowed_callers_file;
  require_hardened = overridden m.managed_require_hardened s.require_hardened;
}

pub data StartError : Type 0 where
  cannot_open_audit_log : Text → StartError
  cannot_load_callers : LoadError → StartError

fallback : Bool → Result Text AuditLogger → Result StartError AuditLogger
fallback explicit (ok a) = ok a
fallback true (err e) = err (cannot_open_audit_log e)
fallback false (err e) = ok new_stderr_audit_logger

-- A path that was given must open; the default one falls back to standard error, which "-" asks for.
unfoldable pub choose_audit :
    Text → Text → (Text → Result Text AuditLogger) → Result StartError AuditLogger
unfolding fallback
choose_audit given default_path open_log =
    let path = if is_empty given then default_path else given in
    let opened = fallback (not (is_empty given)) (open_log path) in
    if equal path (codes "-") then ok new_stderr_audit_logger else opened

abbrev as_start_error : Result LoadError (List CallerRule) → Result StartError (List CallerRule)
as_start_error (ok rules) = ok rules
as_start_error (err e) = err (cannot_load_callers e)

extra_rules :
    Text → (Text → Result LoadError (List CallerRule)) → Result StartError (List CallerRule)
extra_rules file load = if is_empty file then ok [] else as_start_error (load file)

policy_with : Settings → List CallerRule → PeerPolicy
policy_with s rules = record (new_peer_policy s.peer_check s.rate_limit rules) {
  require_hardened = s.require_hardened;
}

agent_with : Settings → AuditLogger → List CallerRule → Agent
unfolding policy_with
agent_with s audit rules = record {
  policy = some (policy_with s rules);
  audit = some audit;
  stall = no_stall;
}

start_with :
    Settings
    → Text
    → (Text → Result Text AuditLogger)
    → (Text → Result LoadError (List CallerRule))
    → Result StartError Agent
unfolding extra_rules agent_with
start_with s default_path open_log load = do
  audit ← choose_audit s.audit_log_path default_path open_log
  rules ← extra_rules s.allowed_callers_file load
  ok (agent_with s audit rules)

-- The agent that `cmdRun` serves with.
unfoldable pub start :
    Managed
    → Settings
    → Text
    → (Text → Result Text AuditLogger)
    → (Text → Result LoadError (List CallerRule))
    → Result StartError Agent
unfolding start_with
start m s default_path open_log load =
    start_with (apply_managed_overrides m s) default_path open_log load
