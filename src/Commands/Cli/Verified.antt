-- ===== src/Commands/Cli/Verified.antt =====
-- From the command line of main.go to the first signature of agent.go: when callers are not verified.
use touchid_agent.Prelude.{
  ℕ, Bool, true, false, not, List, Option, none, some, Result, ok, ◌≡◌, ◌⊎◌, ◌∙◌, inl, inr, sym, ap,
  arith,
}
use touchid_agent.Text.{Text, codes}
use touchid_agent.Policy.{CallerRule, PeerPolicy}
use touchid_agent.Policy.Parse.{LoadError}
use touchid_agent.Policy.Authorize.{SomeMatch, check_caller_iff}
use touchid_agent.Audit.Encoding.{Codec}
use touchid_agent.Audit.{AuditLogger}
use touchid_agent.Agent.Requests.{Agent, World, Request, sign_for}
use touchid_agent.Agent.Requests.Outcome.{sign_for_iff}
use touchid_agent.Config.{Settings, start, overridden}
use touchid_agent.Config.Enforced.{start-policy}
use touchid_agent.Config.Preferences.{CfValue, cf_boolean, cf_pref_bool, read_managed}
use touchid_agent.Commands.Cli.{Flags, choose, serve, run_settings}
use touchid_agent.Commands.Cli.Served.{serves_iff}

peer_check_off :
    (v : Option CfValue) (no_check : Bool)
    → overridden (cf_pref_bool v) (not no_check) ≡ false
    → (v ≡ some (cf_boolean false)) ⊎ (no_check ≡ true)
unfolding cf_pref_bool
peer_check_off (some (cf_boolean b)) no_check h = inl (ap (λ c. some (cf_boolean c)) h)
peer_check_off none no_check h = inr (ground arith)
peer_check_off (some _) no_check h = inr (ground arith)

-- An agent that was started from a command line signs its first request only for a caller that a rule of
-- its policy matches, unless `-no-peer-check` was given or the preference `peer_check` is false.
pub unverified_by_choice :
    (default_path socket : Text) (store_error : Option Text) (f : Flags) (launchd : Bool)
    (s : Settings) (prefs : Text → Option CfValue) (open_log : Text → Result Text AuditLogger)
    (load : Text → Result LoadError (List CallerRule)) (a : Agent) (codec : Codec) (w : World)
    (q : Request) (sig : List ℕ)
    → choose default_path store_error f ≡ serve socket launchd s
    → start (read_managed prefs) s default_path open_log load ≡ ok a
    → (sign_for codec w q a).0 ≡ ok sig
    → ((p : PeerPolicy) × (a.policy ≡ some p) × SomeMatch w.links p.rules q.peer)
      ⊎ (prefs (codes "peer_check") ≡ some (cf_boolean false))
      ⊎ (f.no_peer_check ≡ true)
unfolding read_managed run_settings
unverified_by_choice default_path socket store_error f launchd s prefs open_log load a codec w q sig
      chosen begun signed =
    let (first, later, opened, mode, same) =
      (serves_iff default_path socket store_error f launchd s).0 chosen in
    let (p, known, enforced) =
      start-policy (read_managed prefs) s default_path open_log load a begun in
    let (k, found, passes, own, served) = (sign_for_iff codec w q a sig).0 signed in
    elim ((check_caller_iff w.links p q.peer).0 (rw known at passes)) [
      | inr (matched, hard) ↦ inl (p, known, matched)
      | inl off ↦ inr (
          peer_check_off (prefs (codes "peer_check")) f.no_peer_check (
            ap
              (λ (t : Settings).
                overridden (cf_pref_bool (prefs (codes "peer_check"))) t.peer_check)
              (sym same)
            ∙ sym enforced
            ∙ off))
    ]
