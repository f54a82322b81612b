-- ===== src/Process.antt =====
-- The run of the agent's process: the listener, the loop that accepts connections, the signals, the idle
-- timer and the end of `cmdRun` of main.go, and `launchdListener` of launchd_darwin.go. What happens to the
-- process is a list of events in the order in which they come.
pub mod Runs
pub mod Shutdown
use touchid_agent.Prelude.{
  ℕ, zero, suc, ◌+◌, ◌-◌, Bool, true, false, not, ◌&&◌, List, [], ◌∷◌, Option, none, some, Result,
  ok, err, ◌==◌, if◌then◌else◌,
}
use touchid_agent.Text.{Text}

-- What `launch_activate_socket` and the library make of a descriptor.
pub data ListenError : Type 0 where
  not_activated : ℕ → ListenError
  no_descriptors : ListenError
  invalid_descriptor : ℕ → ListenError
  no_listener : Text → ListenError
  no_directory not_bound : Text → ListenError

listener_of_file : {L : Type 0} → (ℕ → Result Text L) → ℕ → Bool → Result ListenError L
listener_of_file file_listener fd false = err (invalid_descriptor fd)
listener_of_file file_listener fd true = elim (file_listener fd) [
  | err e ↦ err (no_listener e)
  | ok l ↦ ok l
]

-- The first descriptor becomes the listener.
unfoldable pub launchd_listener :
    {L : Type 0} → Result ℕ (List ℕ) → (ℕ → Bool) → (ℕ → Result Text L) → Result ListenError L
unfolding listener_of_file
launchd_listener (err errno) is_file file_listener = err (not_activated errno)
launchd_listener (ok []) is_file file_listener = err no_descriptors
launchd_listener (ok (fd ∷ fds)) is_file file_listener =
    listener_of_file file_listener fd (is_file fd)

-- The agent's own socket: its directory is made, and the socket bound.
unfoldable pub bind_socket : {L : Type 0} → Option Text → Result Text L → Result ListenError L
bind_socket (some e) bound = err (no_directory e)
bind_socket none (err e) = err (not_bound e)
bind_socket none (ok l) = ok l

-- `launchdIdleTimeout`, in seconds
abbrev pub launchd_idle_timeout : ℕ
launchd_idle_timeout = 600

pub data Signal : Type 0 where
  sigterm sigint sighup : Signal

pub data Phase : Type 0 where
  accepting draining finished : Phase

pub record Process : Type 0 where
  pub launchd : Bool
  pub phase : Phase
  pub is_open : Bool
  pub handles_signals : Bool
  pub idle_left : Option ℕ
  pub active : ℕ
  pub socket_file : Bool
  pub audit_open : Bool

-- The process as it comes to its loop. The socket is the agent's own file where launchd did not make it.
abbrev pub started : Bool → Process
started launchd = record {
  launchd = launchd;
  phase = accepting;
  is_open = true;
  handles_signals = true;
  idle_left = if launchd then some launchd_idle_timeout else none;
  active = 0;
  socket_file = not launchd;
  audit_open = true;
}

-- A client connects; Accept fails for a time, or for good; a second goes by; a connection ends; the loop
-- finds the listener closed; the last connection has ended, and the process cleans up.
pub data Event : Type 0 where
  connects accept_timeout accept_error second_passes connection_ends accept_closed drained : Event
  receives : Signal → Event

-- Closing the listener removes the socket file with it, but for the one that launchd made: the library
-- unlinks what net.Listen has bound, and leaves what net.FileListener was given.
close : Process → Process
close p = record p { is_open = false; socket_file = if p.launchd then p.socket_file else false }

end_loop : Process → Process
end_loop p = record p { phase = draining }

-- Something that the loop does, while it runs.
in_loop : Process → Process → Process
in_loop p next = elim p.phase [ accepting ↦ next | draining ↦ p | finished ↦ p ]

accepted : Process → Process
accepted p = record p {
  active = suc p.active;
  idle_left = if p.launchd then some launchd_idle_timeout else p.idle_left;
}

-- The timer closes the listener when it has run down, and is not set again.
run_down : Process → Option ℕ → Process
unfolding close
run_down p none = p
run_down p (some zero) = p
run_down p (some (suc zero)) = close (record p { idle_left = none })
run_down p (some (suc (suc n))) = record p { idle_left = some (suc n) }

-- The goroutine that waits for signals ends at the first that shuts the agent down.
stop : Process → Process
unfolding close
stop p = if p.handles_signals then record (close p) { handles_signals = false } else p

on_signal : Signal → Process → Process
unfolding stop
on_signal sighup p = p
on_signal sigterm p = stop p
on_signal sigint p = stop p

clean_up : Process → Process
clean_up p = record p {
  phase = finished;
  socket_file = if p.launchd then p.socket_file else false;
  audit_open = false;
}

end_connection : Process → ℕ → Process
end_connection p zero = p
end_connection p (suc n) = record p { active = n }

finish : Process → Process
unfolding clean_up
finish p = elim p.phase [
  | accepting ↦ p
  | draining ↦ if p.active == 0 then clean_up p else p
  | finished ↦ p
]

-- One event; one that cannot happen changes nothing.
unfoldable pub handle : Event → Process → Process
unfolding in_loop end_loop accepted run_down on_signal end_connection finish
handle connects p = if p.is_open then in_loop p (accepted p) else p
handle accept_timeout p = if p.launchd then in_loop p (end_loop p) else p
handle accept_error p = in_loop p (end_loop p)
handle second_passes p = run_down p p.idle_left
handle connection_ends p = end_connection p p.active
handle accept_closed p = if p.is_open then p else in_loop p (end_loop p)
handle drained p = finish p
handle (receives s) p = on_signal s p

unfoldable pub run : List Event → Process → Process
run [] p = p
run (e ∷ es) p = run es (handle e p)
