-- ===== src/Tests/Signing.antt =====
-- A request of `ssh` for the one key of an agent, and its log.
use touchid_agent.Policy.Rate.{check_rate, allow, bucket_of}
use touchid_agent.Prelude.{
  ℕ, pos, true, false, [], ◌∷◌, none, some, ok, ◌≡◌, ◌↔◌, refl, get_elem?, ◌+◌, ◌≤◌,
}
use touchid_agent.Text.{Text, codes, equal, contains}
use touchid_agent.Key.{Key}
use touchid_agent.Policy.{new_peer_policy, check_caller, is_allowed_caller, matches}
use touchid_agent.Audit.{
  AuditLogger, all, new_stderr_audit_logger, verify_audit_chain, chain_intact,
}
use touchid_agent.Agent.Failure.{is_biometric_non_completion}
use touchid_agent.Agent.Stall.{
  failed, no_stall, note_biometric_outcome, watch, open_prompts, biometric_stall_window,
  warning_needs_three,
}
use touchid_agent.Agent.Requests.{Agent, World, Request, sign_for, matched, charge_rate}
use touchid_agent.Agent.Requests.Outcome.{OwnRules, Served, Uses, sign_for_iff, use_is_authorized}
use touchid_agent.Agent.Requests.Log.{
  reported, audit-sign_for, serve, logged_requests, AllFit, log_verifies,
}
use touchid_agent.Agent.Requests.Locks.{run, free, touch_of, sign_for-disciplined}
use touchid_agent.Tests.Samples.{no_links, ssh_peer, codec, codec-IsFaithful, base_point}
use touchid_agent.Tests.Logs.{every_call-Fits}

abbrev pub key : Key
key = record {
  label = codes "work";
  require_touch = true;
  caller_rules = [];
  public_key = base_point;
  key_data = 7 ∷ [];
  sign_fn = none;
}

abbrev pub world : World
world = record {
  keys = ok (key ∷ []);
  blob = λ k. some (1 ∷ 2 ∷ 3 ∷ []);
  new_signer = λ k. none;
  signature = λ k payload. ok (9 ∷ payload);
  links = no_links;
  rate_time = 100;
  prompt_time = 200;
  message = λ e. codes "failed";
  timestamp = codes "2026-01-01T00:00:00Z";
  written = all;
  waited = false;
}

abbrev pub request : Request
request = record { key_blob = 1 ∷ 2 ∷ 3 ∷ []; payload = 5 ∷ []; peer = ssh_peer }

abbrev pub agent : Agent
agent = record {
  policy = some (new_peer_policy true (pos 10) []);
  audit = some new_stderr_audit_logger;
  stall = no_stall;
}

signed : (sign_for codec world request agent).0 ≡ ok (9 ∷ 5 ∷ [])
unfolding sign_for equal check_caller new_peer_policy is_allowed_caller matches check_rate allow
    bucket_of
signed = refl

sign_for_iff_example : ((sign_for codec world request agent).0 ≡ ok (9 ∷ 5 ∷ [])) ↔ (
    (k : Key) × (matched world request ≡ some k)
    × (check_caller world.links agent.policy request.peer ≡ ok tt)
    × OwnRules world request k
    × Served world request k agent (9 ∷ 5 ∷ []))
sign_for_iff_example = sign_for_iff codec world request agent (9 ∷ 5 ∷ [])

used : Uses (sign_for codec world request agent).2
unfolding sign_for equal check_caller new_peer_policy is_allowed_caller matches check_rate allow
    bucket_of
used = refl

use_is_authorized_example :
    (k : Key) × (matched world request ≡ some k)
    × (check_caller world.links agent.policy request.peer ≡ ok tt)
    × OwnRules world request k
    × ((charge_rate agent.policy k.label world.rate_time).1 ≡ ok tt)
use_is_authorized_example = use_is_authorized codec world request agent used

audit-sign_for_example :
    (sign_for codec world request agent).1.audit
    ≡ reported world request codec
        (matched world request)
        (sign_for codec world request agent).0
        agent.audit
audit-sign_for_example = audit-sign_for world request codec agent

sign_for-disciplined_example :
    run
      (touch_of codec world request (matched world request))
      (some free)
      (sign_for codec world request agent).2
    ≡ some free
sign_for-disciplined_example = sign_for-disciplined codec world request agent

two_requests-AllFit : AllFit codec ((world, request) ∷ (world, request) ∷ []) agent
two_requests-AllFit = (λ k e. every_call-Fits _, tt, (λ k e. every_call-Fits _, tt, tt))

log_verifies_example :
    (lg : AuditLogger) × ((serve codec ((world, request) ∷ (world, request) ∷ []) agent).audit
      ≡ some lg)
    × (verify_audit_chain codec (ok lg.file)
        ≡ ok (
            chain_intact
              (logged_requests codec ((world, request) ∷ (world, request) ∷ []))
              (logged_requests codec ((world, request) ∷ (world, request) ∷ []))))
log_verifies_example =
    log_verifies codec codec-IsFaithful ((world, request) ∷ (world, request) ∷ []) agent refl
      two_requests-AllFit

-- Three prompts at once, all taken over by another authentication
abbrev taken_over_text : Text
taken_over_text = codes "com.apple.LocalAuthentication Code=-4 Canceled by another authentication"

warned :
    (note_biometric_outcome
      (failed taken_over_text)
      3
      (watch ((failed taken_over_text, 2) ∷ (failed taken_over_text, 1) ∷ []))).1
    ≡ true
unfolding note_biometric_outcome is_biometric_non_completion contains watch
warned = refl

warning_needs_three_example :
    (first : ℕ) × (get_elem?
        (open_prompts (
          (failed taken_over_text, 3)
          ∷ (failed taken_over_text, 2)
          ∷ (failed taken_over_text, 1)
          ∷ []))
        2
      ≡ some first)
    × (3 ≤ first + biometric_stall_window)
warning_needs_three_example =
    warning_needs_three (failed taken_over_text) 3
      ((failed taken_over_text, 2) ∷ (failed taken_over_text, 1) ∷ []) warned
