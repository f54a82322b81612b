-- ===== src/Tests/Processes.antt =====
-- The agent's process: connections, a hang-up, the idle timeout and a signal that ends it.
use touchid_agent.Prelude.{◌≤◌, true, false, List, [], ◌∷◌, ◌≡◌, refl, arith, count, ltb}
use touchid_agent.Process.{
  Event, connects, connection_ends, second_passes, receives, sigterm, sighup, accept_closed,
  finished, handle, run, started, launchd_idle_timeout,
}
use touchid_agent.Process.Runs.{InOrder, run-InOrder}
use touchid_agent.Process.Shutdown.{
  endings, is_second, no_connection_after_term, term_finishes, idle_timeout,
}

abbrev busy : List Event
busy = connects ∷ receives sighup ∷ second_passes ∷ connects ∷ connection_ends ∷ []

run-InOrder_example : InOrder (run busy (started false))
run-InOrder_example = run-InOrder false busy

no_connection_after_term_example :
    ((run (connects ∷ []) (handle (receives sigterm) (run busy (started true)))).is_open ≡ false)
    × ((run (connects ∷ []) (handle (receives sigterm) (run busy (started true)))).active
        ≤ (run busy (started true)).active)
no_connection_after_term_example =
    no_connection_after_term true busy (connects ∷ []) sigterm (λ e. ground arith)

term_finishes_example :
    (run
      (receives sigterm ∷ accept_closed ∷ endings (run busy (started true)).active)
      (run busy (started true))).phase
    ≡ finished
term_finishes_example = term_finishes true busy

idle_timeout_example :
    (run (connects ∷ second_passes ∷ connection_ends ∷ []) (started true)).is_open
    ≡ ltb (count is_second (second_passes ∷ connection_ends ∷ [])) launchd_idle_timeout
idle_timeout_example =
    idle_timeout (started true) (second_passes ∷ connection_ends ∷ []) refl refl refl
      (refl, (refl, tt))
