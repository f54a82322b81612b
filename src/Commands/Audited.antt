-- ===== src/Commands/Audited.antt =====
-- `cmdVerifyAudit` of main.go, and what it reports of a log that the agent of agent.go has written.
use touchid_agent.Prelude.{List, [], ◌∷◌, ◌++◌, Result, ok, err, ◌≡◌, refl, if◌then◌else◌}
use touchid_agent.Text.{Text}
use touchid_agent.Audit.{new_stderr_audit_logger, chain_intact, verify_audit_chain, Verdict}
use touchid_agent.Audit.Encoding.{Codec, IsFaithful}
use touchid_agent.Audit.Scan.{Bytes}
use touchid_agent.Agent.Requests.Log.Sessions.{
  Session, sessions, SessionsFit, logged_in, sessions_verify,
}
use touchid_agent.Commands.{
  Command, Machine, give_up, log_broken, log_intact, log_tampered, not_verifiable, say, ◌>>◌,
}

module _ (codec : Codec) where
  report : Text → Verdict → Command (Unit {0})
  report path (err e) = give_up (not_verifiable e)
  report path (ok res) =
      if res.is_ok
      then say (log_intact path res)
      else (do say (log_broken path res); give_up log_tampered)

  unfoldable pub cmd_verify_audit : (Text → Result Text Bytes) → Text → Command (Unit {0})
  unfolding report
  cmd_verify_audit read path = report path (verify_audit_chain codec (read path))

-- Where the file that `-verify-audit` reads is what the agent's sessions have left, each started on the file
-- of the one before, and in all of them the records are short and a write that fails has written nothing, the
-- command ends well, changes nothing, and prints that the chain is intact, with one chained record for each
-- request, of any session, that named one of the agent's keys and whose record was written.
pub sessions_accepted :
    (codec : Codec) (faithful : IsFaithful codec) (ss : List Session)
    (fit : SessionsFit codec ss new_stderr_audit_logger) (read : Text → Result Text Bytes)
    (path : Text) (m : Machine)
    → read path ≡ sessions codec ss []
    → cmd_verify_audit codec read path m ≡ (
      ok tt,
      record m {
        printed =
            m.printed
            ++ log_intact path (chain_intact (logged_in codec ss) (logged_in codec ss)) ∷ [];
      },
    )
unfolding cmd_verify_audit report
sessions_accepted codec faithful ss fit read path m h =
    let (file, left, verified) = sessions_verify codec faithful ss fit in
    rw (h, left, verified) refl
