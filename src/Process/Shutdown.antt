-- ===== src/Process/Shutdown.antt =====
-- How the agent's process, `cmdRun` of main.go, comes to its end.
use touchid_agent.Prelude.{
  ℕ, zero, suc, ◌≤◌, Bool, true, false, List, [], ◌∷◌, some, ◌≡◌, ◌≢◌, ◌⊎◌, ◌∙◌, inl, refl, arith,
  count, ltb, All,
}
use touchid_agent.Process.{
  Process, accepting, finished, Event, connects, accept_timeout, accept_error, second_passes,
  connection_ends, accept_closed, drained, receives, Signal, sighup, sigterm, sigint, handle, run,
  started, launchd_idle_timeout, in_loop, end_loop, accepted, run_down, on_signal, end_connection,
  finish, clean_up, close, stop,
}

-- A listener that is closed stays closed, and then no connection is added.
handle-closed :
    (e : Event) (p : Process)
    → p.is_open ≡ false
    → ((handle e p).is_open ≡ false) × ((handle e p).active ≤ p.active)
unfolding handle in_loop end_loop accepted run_down on_signal end_connection finish clean_up close
    stop
handle-closed connects p h = ground arith
handle-closed accept_timeout p h = ground arith
handle-closed accept_error p h = ground arith
handle-closed second_passes p h = ground arith
handle-closed connection_ends p h = ground arith
handle-closed accept_closed p h = ground arith
handle-closed drained p h = ground arith
handle-closed (receives s) p h = ground arith

run-closed :
    (es : List Event) (p : Process)
    → p.is_open ≡ false
    → ((run es p).is_open ≡ false) × ((run es p).active ≤ p.active)
unfolding run
run-closed [] p h = (h, omega arith)
run-closed (e ∷ es) p h =
    let (closed, fewer) = handle-closed e p h in
    let (c, f) = run-closed es (handle e p) closed in (c, omega arith)

-- The signals are handled, or one that shuts the agent down has come.
abbrev Heeds : Process → Type 0
Heeds p = (p.handles_signals ≡ true) ⊎ (p.is_open ≡ false)

handle-Heeds : (e : Event) (p : Process) → Heeds p → Heeds (handle e p)
unfolding handle in_loop end_loop accepted run_down on_signal end_connection finish clean_up close
    stop
handle-Heeds connects p h = ground arith
handle-Heeds accept_timeout p h = ground arith
handle-Heeds accept_error p h = ground arith
handle-Heeds second_passes p h = ground arith
handle-Heeds connection_ends p h = ground arith
handle-Heeds accept_closed p h = ground arith
handle-Heeds drained p h = ground arith
handle-Heeds (receives s) p h = ground arith

run-Heeds : (es : List Event) (p : Process) → Heeds p → Heeds (run es p)
unfolding run
run-Heeds [] p h = h
run-Heeds (e ∷ es) p h = run-Heeds es (handle e p) (handle-Heeds e p h)

signal-closes :
    (s : Signal) (p : Process)
    → s ≢ sighup
    → Heeds p
    → ((handle (receives s) p).is_open ≡ false) × ((handle (receives s) p).active ≡ p.active)
unfolding handle on_signal stop
signal-closes sighup p h k = absurd (h refl)
signal-closes sigterm p h k = ground arith
signal-closes sigint p h k = ground arith

-- A SIGTERM or SIGINT at any time of a run closes the listener for good: whatever happens then, no
-- connection is added to those that are served.
pub no_connection_after_term :
    (launchd : Bool) (before after : List Event) (s : Signal)
    → s ≢ sighup
    → let p = run before (started launchd) in
      ((run after (handle (receives s) p)).is_open ≡ false)
      × ((run after (handle (receives s) p)).active ≤ p.active)
no_connection_after_term launchd before after s h =
    let p = run before (started launchd) in
    let (closed, same) = signal-closes s p h (run-Heeds before (started launchd) (inl refl)) in
    let (c, f) = run-closed after (handle (receives s) p) closed in (c, omega arith)

-- The connections end, one after the other.
abbrev pub endings : ℕ → List Event
endings zero = drained ∷ []
endings (suc n) = connection_ends ∷ endings n

run-endings :
    (n : ℕ) (p : Process)
    → p.active ≡ n
    → p.phase ≢ accepting
    → (run (endings n) p).phase ≡ finished
unfolding run handle end_connection finish clean_up
run-endings zero p h d = ground arith
run-endings (suc n) p h d = rw h (run-endings n (record p { active = n }) refl d)

term-drains :
    (p : Process)
    → Heeds p
    → let q = handle accept_closed (handle (receives sigterm) p) in
      (q.active ≡ p.active) × (q.phase ≢ accepting)
unfolding handle in_loop end_loop on_signal stop
term-drains p h = ground arith

-- From every point of every run, a SIGTERM leads the process to its end, once the loop has seen that the
-- listener is closed and each connection that is being served has ended.
pub term_finishes :
    (launchd : Bool) (es : List Event)
    → let p = run es (started launchd) in
      (run (receives sigterm ∷ accept_closed ∷ endings p.active) p).phase ≡ finished
unfolding run
term_finishes launchd es =
    let p = run es (started launchd) in
    let (same, ends) = term-drains p (run-Heeds es (started launchd) (inl refl)) in
    run-endings p.active (handle accept_closed (handle (receives sigterm) p)) same ends

-- What happens besides new connections, a signal to shut down and failures of Accept.
abbrev pub is_calm : Event → Bool
is_calm second_passes = true
is_calm connection_ends = true
is_calm (receives sighup) = true
is_calm _ = false

abbrev pub is_second : Event → Bool
is_second second_passes = true
is_second _ = false

closed_calm : (es : List Event) (p : Process) → p.is_open ≡ false → (run es p).is_open ≡ false
closed_calm es p h = (run-closed es p h).0

end_connection_kept :
    (p : Process) (n : ℕ)
    → ((end_connection p n).is_open ≡ p.is_open) × ((end_connection p n).idle_left ≡ p.idle_left)
unfolding end_connection
end_connection_kept p zero = (refl, refl)
end_connection_kept p (suc n) = (refl, refl)

idle_run :
    (n : ℕ) (es : List Event) (p : Process)
    → p.is_open ≡ true
    → p.idle_left ≡ some (suc n)
    → All (λ e. is_calm e ≡ true) es
    → (run es p).is_open ≡ ltb (count is_second es) (suc n)
unfolding run handle run_down end_connection on_signal
idle_run n [] p h i calm = ground arith
idle_run zero (second_passes ∷ es) p h i (c, calm) =
    rw i (ground (arith, closed_calm es (handle second_passes p) (rw i refl)))
idle_run (suc n) (second_passes ∷ es) p h i (c, calm) =
    rw i (ground (arith, idle_run n es (record p { idle_left = some (suc n) }) h refl calm))
idle_run n (connection_ends ∷ es) p h i (c, calm) =
    let (o, l) = end_connection_kept p p.active in
    ground (arith, idle_run n es (end_connection p p.active) (o ∙ h) (l ∙ i) calm)
idle_run n (receives sighup ∷ es) p h i (c, calm) = ground (arith, idle_run n es p h i calm)
idle_run n (_ ∷ es) p h i (c, calm) = absurd (ground arith)

connects-timer :
    (p : Process)
    → p.launchd ≡ true
    → p.is_open ≡ true
    → p.phase ≡ accepting
    → ((handle connects p).is_open ≡ true)
      × ((handle connects p).idle_left ≡ some launchd_idle_timeout)
unfolding handle in_loop accepted
connects-timer p l o a = ground arith

-- Under launchd, after a connection is accepted and while no other comes, no signal shuts the agent down
-- and Accept does not fail, the listener is open just as long as fewer than 600 seconds have passed.
pub idle_timeout :
    (p : Process) (es : List Event)
    → p.launchd ≡ true
    → p.is_open ≡ true
    → p.phase ≡ accepting
    → All (λ e. is_calm e ≡ true) es
    → (run (connects ∷ es) p).is_open ≡ ltb (count is_second es) launchd_idle_timeout
unfolding run
idle_timeout p es l o a calm =
    let (opened, timer) = connects-timer p l o a in
    idle_run 599 es (handle connects p) opened timer calm
