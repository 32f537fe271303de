-- ===== src/Guardian/Run.antt =====
-- src/guardian.ts: the events that reach the guardian, in any order.
use pi_watch.Base.{ℕ, ℤ, Text, Bool, Option, List, [], ◌∷◌}
use pi_watch.Evidence.Defs.{CleanupTermObservation}
use pi_watch.Guardian.Protocol.{HelloReply}
use pi_watch.Guardian.Machine.{
  Guardian, handle_hello_reply, handle_grant, own_probe_done, runner_probe_done, shell_spawn_heard,
  shell_error_heard, shell_exit_heard, kill_timer_fired, deadline_timer_fired,
  readiness_timer_fired, sigterm, disconnected,
}

-- An event, with what its handler reads from clocks and what its system calls answer.
pub data Event : Type 0 where
  reply_received : HelloReply → Event
  grant_received : Bool → ℕ → Event
  own_probe runner_probe : ℕ → Option ℕ → Event
  shell_spawn : ℕ → Event
  shell_failed : Event
  shell_ended : Option ℤ → Option Text → CleanupTermObservation → ℕ → Event
  kill_timer : ℕ → Event
  deadline_timer : CleanupTermObservation → ℕ → Event
  readiness_timer : Event
  term_received : CleanupTermObservation → ℕ → Event
  disconnect : CleanupTermObservation → ℕ → Event

unfoldable pub step : Event → Guardian → Guardian
step (reply_received reply) g = handle_hello_reply reply g
step (grant_received throws now) g = handle_grant throws now g
step (own_probe i own) g = own_probe_done i own g
step (runner_probe i runner) g = runner_probe_done i runner g
step (shell_spawn pid) g = shell_spawn_heard pid g
step shell_failed g = shell_error_heard g
step (shell_ended code signal observation now) g = shell_exit_heard code signal observation now g
step (kill_timer now) g = kill_timer_fired now g
step (deadline_timer observation now) g = deadline_timer_fired observation now g
step readiness_timer g = readiness_timer_fired g
step (term_received observation now) g = sigterm observation now g
step (disconnect observation now) g = disconnected observation now g

unfoldable pub run : List Event → Guardian → Guardian
run [] g = g
run (e ∷ events) g = run events (step e g)
