-- ===== src/Agent/Requests/Log/Sessions.antt =====
-- One log file under agents that are started one after the other, as launchd starts them on demand:
-- each opens the file that the one before has left, serves its requests and ends.
use native.Mathlib.Nat.{add_assoc, add-zero, zero-add}
use touchid_agent.Prelude.{ℕ, ◌+◌, List, [], ◌∷◌, Option, none, some, Result, ok, ◌>>=◌, ◌≡◌, refl}
use touchid_agent.Text.{Text}
use touchid_agent.Policy.{PeerPolicy}
use touchid_agent.Audit.Encoding.{Codec, IsFaithful}
use touchid_agent.Audit.Scan.{Bytes}
use touchid_agent.Audit.{
  AuditLogger, new_audit_logger, new_stderr_audit_logger, verify_audit_chain, chain_intact,
}
use touchid_agent.Audit.Chain.{IsChained, new-IsChained, IsChained-verifies}
use touchid_agent.Audit.Restart.{reopened}
use touchid_agent.Agent.Stall.{no_stall}
use touchid_agent.Agent.Requests.{Agent, World, Request}
use touchid_agent.Agent.Requests.Log.{serve, logged_requests, AllFit, serve-Chained}

-- One run of the agent: its policy, and the requests that it serves.
abbrev pub Session : Type 0
Session = Option PeerPolicy × List (World × Request)

-- The agent as it starts on a log that has been opened.
abbrev pub agent_on : Option PeerPolicy → AuditLogger → Agent
agent_on policy lg = record { policy = policy; audit = some lg; stall = no_stall }

log_file : Option AuditLogger → Bytes
log_file none = []
log_file (some lg) = lg.file

module _ (codec : Codec) where
  -- The file behind the last session, or why it could not be opened.
  unfoldable pub sessions : List Session → Bytes → Result Text Bytes
  unfolding log_file
  sessions [] file = ok file
  sessions ((policy, rs) ∷ later) file = do
    lg ← new_audit_logger codec none (some file) none
    sessions later (log_file (serve codec rs (agent_on policy lg)).audit)

  abbrev pub logged_in : List Session → ℕ
  logged_in [] = 0
  logged_in ((policy, rs) ∷ later) = logged_requests codec rs + logged_in later

  -- In every session the records are short and the writes whole or not begun.
  abbrev pub SessionsFit : List Session → AuditLogger → Type 0
  SessionsFit [] lg = Unit
  SessionsFit ((policy, rs) ∷ later) lg =
      AllFit codec rs (agent_on policy lg)
      × ((next : AuditLogger)
          → (serve codec rs (agent_on policy lg)).audit ≡ some next
          → SessionsFit later next)

  module _ (faithful : IsFaithful codec) where
    sessions-Chained :
        (ss : List Session) (lg : AuditLogger) (n : ℕ)
        → IsChained codec n lg
        → SessionsFit ss lg
        → (file : Bytes) × (sessions ss lg.file ≡ ok file)
          × (verify_audit_chain codec (ok file)
              ≡ ok (chain_intact (n + logged_in ss) (n + logged_in ss)))
    unfolding sessions
    sessions-Chained [] lg n v fit =
        (lg.file, refl, rw add-zero (IsChained-verifies codec faithful n lg v))
    sessions-Chained ((policy, rs) ∷ later) lg n v (fit, more) =
        let (next, e, v') =
          serve-Chained codec faithful rs (agent_on policy lg) n fit (lg, refl, v) in
        let (file, run, intact) =
          sessions-Chained later next (n + logged_requests codec rs) v' (more next e) in
        (
          file,
          rw (reopened codec faithful n lg v, e) run,
          rw (← add_assoc n (logged_requests codec rs) (logged_in later)) intact,
        )

    -- However often the agent is started anew on the file that it has left, each session opens it, and
    -- in the end it verifies as intact, with one chained record for each request, of any session, that
    -- named one of the agent's keys and whose record was written.
    pub sessions_verify :
        (ss : List Session)
        → SessionsFit ss new_stderr_audit_logger
        → (file : Bytes) × (sessions ss [] ≡ ok file)
          × (verify_audit_chain codec (ok file) ≡ ok (chain_intact (logged_in ss) (logged_in ss)))
    sessions_verify ss fit =
        rw zero-add at
          (sessions-Chained ss new_stderr_audit_logger 0 (new-IsChained codec faithful) fit)
