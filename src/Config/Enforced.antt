-- ===== src/Config/Enforced.antt =====
-- The agent that `cmdRun` of main.go builds under managed preferences.
use touchid_agent.Prelude.{
  ℕ, pos, leb_ℤ, true, false, List, [], some, Result, ok, err, >>=-eq-ok, ◌≡◌, inl, inr, refl, sym,
  Bool-cases, ℤ, ◌⊎◌,
}
use touchid_agent.Text.{Text, codes, equal, is_empty}
use touchid_agent.Peer.{Peer}
use touchid_agent.Policy.{
  Symlinks, CallerRule, PeerPolicy, new_peer_policy, rate_limit_ceiling, check_caller,
}
use touchid_agent.Policy.Parse.{LoadError}
use touchid_agent.Policy.Authorize.{SomeMatch, check_caller_iff}
use touchid_agent.Audit.Encoding.{Codec}
use touchid_agent.Audit.{AuditLogger, new_stderr_audit_logger}
use touchid_agent.Agent.Requests.{Agent, World, Request, sign_for}
use touchid_agent.Agent.Requests.Outcome.{sign_for_iff}
use touchid_agent.Config.{
  Settings, Managed, apply_managed_overrides, StartError, choose_audit, fallback, extra_rules,
  policy_with, agent_with, start_with, start, overridden,
}

same_agent : {x y : Agent} → ◌≡◌ {A = Result StartError Agent} (ok x) (ok y) → x ≡ y
same_agent e = cc

enforced_caller :
    (links : Symlinks) (p : PeerPolicy) (peer : Peer)
    → p.enforce ≡ true
    → p.require_hardened ≡ true
    → check_caller links (some p) peer ≡ ok tt
    → SomeMatch links p.rules peer × (peer.hardened ≡ true)
enforced_caller links p peer on hard h = elim ((check_caller_iff links p peer).0 h) [
  | inl off ↦ absurd (cc)
  | inr (matched, inl lax) ↦ absurd (cc)
  | inr (matched, inr hardened) ↦ (matched, hardened)
]

-- A limit that is asked for, and the limit that holds: the same, or the ceiling below it.
abbrev pub IsCapped : ℤ → ℤ → Type 0
IsCapped asked limit =
    ((leb_ℤ asked (pos rate_limit_ceiling) ≡ true) × (limit ≡ asked))
    ⊎ ((leb_ℤ asked (pos rate_limit_ceiling) ≡ false) × (limit ≡ pos rate_limit_ceiling))

rate_limit-policy_with :
    (s : Settings) (rules : List CallerRule)
    → IsCapped s.rate_limit (policy_with s rules).rate_limit
unfolding policy_with new_peer_policy
rate_limit-policy_with s rules = elim (Bool-cases (leb_ℤ s.rate_limit (pos rate_limit_ceiling))) [
  | inl e ↦ rw e (inl (refl, refl))
  | inr e ↦ rw e (inr (refl, refl))
]

module _ (default_path : Text) (open_log : Text → Result Text AuditLogger) where
  abbrev Opens : Text → Type 0
  Opens given = (audit : AuditLogger) × (choose_audit given default_path open_log ≡ ok audit)

  fallback_opens :
      (r : Result Text AuditLogger) → (audit : AuditLogger) × (fallback false r ≡ ok audit)
  unfolding fallback
  fallback_opens (ok a) = (a, refl)
  fallback_opens (err e) = (new_stderr_audit_logger, refl)

  default-Opens : Opens []
  unfolding choose_audit
  default-Opens = elim (Bool-cases (equal default_path (codes "-"))) [
    | inl e ↦ (new_stderr_audit_logger, unfold is_empty in rw e refl)
    | inr e ↦
        let (audit, same) = fallback_opens (open_log default_path) in
        (audit, unfold is_empty in rw e same)
  ]

module _ (m : Managed) (s : Settings) (default_path : Text)
    (open_log : Text → Result Text AuditLogger)
    (load : Text → Result LoadError (List CallerRule)) where
  abbrev effective : Settings
  effective = apply_managed_overrides m s

  started :
      (a : Agent)
      → start m s default_path open_log load ≡ ok a
      → (audit : AuditLogger) × (rules : List CallerRule) × (a ≡ agent_with effective audit rules)
  unfolding start start_with
  started a h =
      let (audit, one, later) =
        >>=-eq-ok (choose_audit effective.audit_log_path default_path open_log) _ h in
      let (rules, two, same) =
        >>=-eq-ok (extra_rules effective.allowed_callers_file load) _ later in
      (audit, rules, sym (same_agent same))

  -- Where neither an audit path nor a file of callers is set, the agent starts, whether or not the
  -- default log can be opened.
  pub start_by_default :
      effective.audit_log_path ≡ []
      → effective.allowed_callers_file ≡ []
      → (a : Agent) × (start m s default_path open_log load ≡ ok a)
  unfolding start start_with apply_managed_overrides
  start_by_default h k =
      let (audit, opened) = default-Opens default_path open_log in
      (agent_with effective audit [], rw (h, k, opened) (unfold extra_rules is_empty in refl))

  -- The agent that starts has a policy, which enforces what the preferences and the flags come to.
  pub start-policy :
      (a : Agent)
      → start m s default_path open_log load ≡ ok a
      → (p : PeerPolicy) × (a.policy ≡ some p)
        × (p.enforce ≡ overridden m.managed_peer_check s.peer_check)
  unfolding agent_with policy_with new_peer_policy apply_managed_overrides
  start-policy a h =
      let (audit, rules, same) = started a h in (policy_with effective rules, rw same refl, refl)

  -- Where the managed preferences turn peer checks on and require the hardened runtime, then whatever
  -- the flags say, the agent that starts has an audit log; its rate limit is the one that preferences and
  -- flags come to, or the ceiling where that is higher (0 or less is no limit); and it signs at first only
  -- for a caller that a rule of its policy matches and that runs with the hardened runtime.
  pub managed_enforced :
      (a : Agent) (codec : Codec) (w : World) (q : Request) (sig : List ℕ)
      → m.managed_peer_check ≡ some true
      → m.managed_require_hardened ≡ some true
      → start m s default_path open_log load ≡ ok a
      → (sign_for codec w q a).0 ≡ ok sig
      → (audit : AuditLogger) × (p : PeerPolicy) × (a.audit ≡ some audit)
        × (a.policy ≡ some p)
        × IsCapped (overridden m.managed_rate_limit s.rate_limit) p.rate_limit
        × SomeMatch w.links p.rules q.peer
        × (q.peer.hardened ≡ true)
  unfolding agent_with apply_managed_overrides
  managed_enforced a codec w q sig check hard h signed =
      let (audit, rules, same) = started a h in
      let policy = policy_with effective rules in
      let (k, found, passes, own, served) = (sign_for_iff codec w q a sig).0 signed in
      let known : a.policy ≡ some policy = rw same refl in
      let (matched, hardened) =
        enforced_caller w.links policy q.peer (unfold policy_with new_peer_policy in rw check refl)
          (unfold policy_with in rw hard refl) (rw known at passes) in
      (
        audit,
        policy,
        rw same refl,
        known,
        rate_limit-policy_with effective rules,
        matched,
        hardened,
      )
