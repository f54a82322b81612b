-- ===== src/Process/Runs.antt =====
-- Runs of the agent's process, `cmdRun` of main.go: what holds after every event, what a hang-up does, and
-- how it shuts down.
use touchid_agent.Prelude.{
  Bool, true, false, not, ◌&&◌, List, [], ◌∷◌, ◌≡◌, ◌≢◌, ◌⊎◌, inl, inr, refl, arith, keep,
  Bool-cases,
}
use touchid_agent.Process.{
  Process, finished, Event, connects, accept_timeout, accept_error, second_passes, connection_ends,
  accept_closed, drained, receives, sighup, handle, run, started, in_loop, end_loop, accepted,
  run_down, on_signal, end_connection, finish, clean_up, close, stop,
}

-- While the process runs, the audit log is open, and its own socket stands just as long as the listener
-- is open; once it has finished, no connection is left, the log is closed and the socket is gone.
abbrev pub InOrder : Process → Type 0
InOrder p =
    ((p.phase ≡ finished) × (p.active ≡ 0) × (p.audit_open ≡ false) × (p.socket_file ≡ false))
    ⊎ ((p.phase ≢ finished)
        × (p.audit_open ≡ true)
        × (p.socket_file ≡ (not p.launchd && p.is_open)))

handle-InOrder : (e : Event) (p : Process) → InOrder p → InOrder (handle e p)
unfolding handle in_loop end_loop accepted run_down on_signal end_connection finish clean_up close
    stop
handle-InOrder connects p h = ground arith
handle-InOrder accept_timeout p h = ground arith
handle-InOrder accept_error p h = ground arith
handle-InOrder second_passes p h = ground arith
handle-InOrder connection_ends p h = ground arith
handle-InOrder accept_closed p h = ground arith
handle-InOrder drained p h = ground arith
handle-InOrder (receives s) p h = ground arith

run_keeps : (es : List Event) (p : Process) → InOrder p → InOrder (run es p)
unfolding run
run_keeps [] p h = h
run_keeps (e ∷ es) p h = run_keeps es (handle e p) (handle-InOrder e p h)

-- Through every run of the agent: until the process has finished, the audit log is open, and the agent's
-- own socket file stands exactly as long as the listener is open (there is none where launchd made the
-- socket). It finishes only with no connection left, and then the log is closed and the file is gone.
pub run-InOrder : (launchd : Bool) (es : List Event) → InOrder (run es (started launchd))
run-InOrder launchd es = run_keeps es (started launchd) (ground arith)

abbrev pub is_hangup : Event → Bool
is_hangup (receives sighup) = true
is_hangup _ = false

skip_hangup : (e : Event) (p : Process) → is_hangup e ≡ true → handle e p ≡ p
unfolding handle on_signal
skip_hangup (receives sighup) p h = refl
skip_hangup _ p h = absurd (ground arith)

-- A hang-up signal has no effect, whenever it comes: a run ends as the run without the hang-ups does.
pub hangups_ignored :
    (es : List Event) (p : Process) → run es p ≡ run (keep (λ e. not (is_hangup e)) es) p
unfolding run
hangups_ignored [] p = refl
hangups_ignored (e ∷ es) p = elim (Bool-cases (is_hangup e)) [
  | inl b ↦ rw (b, skip_hangup e p b) (hangups_ignored es p)
  | inr b ↦ rw b (hangups_ignored es (handle e p))
]
