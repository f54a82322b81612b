-- ===== src/Commands/Status.antt =====
-- `cmdStatus` of main.go. What a client of the agent's socket is answered is an argument: a failure to
-- connect, or the answer to its request for the list of keys.
use touchid_agent.Prelude.{ℕ, ℤ, List, [], ◌∷◌, Option, Result, ok, err}
use touchid_agent.Text.{Text}
use touchid_agent.Commands.Stale.{find_stale_l_mode_processes}
use touchid_agent.Commands.{
  ◌>>◌, Command, give, give_up, say, unreachable, agent_failed, agent_running, stale_agents,
}

-- The warning of agents that an old plist has left running
warn_of : List ℤ → Command (Unit {0})
warn_of [] = give tt
warn_of (pid ∷ pids) = say (stale_agents (pid ∷ pids))

answered : Option Text → Text → ℤ → Result Text ℕ → Command (Unit {0})
unfolding warn_of
answered ps socket self (err e) = give_up agent_failed
answered ps socket self (ok keys) = do
  say (agent_running keys)
  warn_of (find_stale_l_mode_processes ps socket self)

unfoldable pub cmd_status :
    (Text → Result Text (Result Text ℕ)) → Option Text → ℤ → Text → Command (Unit {0})
unfolding answered
cmd_status dial ps self socket = elim (dial socket) [
  | err e ↦ give_up unreachable
  | ok reply ↦ answered ps socket self reply
]
