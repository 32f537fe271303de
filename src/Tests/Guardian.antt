-- ===== src/Tests/Guardian.antt =====
-- A guardian that runs a shell to its end, and the theorems about guardians at it.
use pi_watch.Base.{
  ℕ, ◌≤◌, Text, text, text_eq, true, false, none, some, List, [], ◌∷◌, ℤ, ◌≡◌, refl, arith,
}
use pi_watch.Base
use pi_watch.Evidence.Defs.{CleanupTermObservation}
use pi_watch.Evidence.Defs
use pi_watch.JobTypes.Validate.{string}
use pi_watch.Guardian.Protocol.{HelloReply, is_guardian_message}
use pi_watch.Guardian.Machine.{
  started, handle_hello_reply, own_probe_done, runner_probe_done, handle_grant, grant_shell,
  start_shell, shell_spawn_heard, shell_exit_heard, cleanup, kill_timer_fired, stop,
}
use pi_watch.Guardian.Run.{Event, step, run}
use pi_watch.Guardian.Run
use pi_watch.Guardian.Signals.{terms, kills, KillsLate, run-KillsLate}
use pi_watch.Guardian.Shell.{replies, shells, ShellsTimely, run-ShellsTimely}

abbrev reply : HelloReply
reply = record {
  runner_pid = 7;
  command = text "true";
  cwd = text "/";
  deadline_at_ms = 1000;
  ps_path = text "/bin/ps";
  sh_path = text "/bin/sh";
}

abbrev full_life : List Event
full_life =
    Run.reply_received reply
    ∷ Run.own_probe 0 (some 9)
    ∷ Run.runner_probe 0 (some 7)
    ∷ Run.grant_received false 100
    ∷ Run.shell_spawn 11
    ∷ Run.shell_ended (some (Base.pos 0)) none Defs.returned 200
    ∷ Run.kill_timer 5100
    ∷ Run.kill_timer 5200
    ∷ []

-- The second firing of the timer kills.
full_life_signals :
    (terms (run full_life (started 9)).log ≡ 1) × (kills (run full_life (started 9)).log ≡ 1)
unfolding run step handle_hello_reply own_probe_done runner_probe_done handle_grant grant_shell
    start_shell shell_spawn_heard shell_exit_heard cleanup kill_timer_fired stop
full_life_signals = (refl, refl)

full_life_shell : shells (run full_life (started 9)).log ≡ 1
unfolding run step handle_hello_reply own_probe_done runner_probe_done handle_grant grant_shell
    start_shell shell_spawn_heard shell_exit_heard cleanup kill_timer_fired stop
full_life_shell = refl

-- A second reply before the topology is known lets a second grant start a second shell, so the
-- number of replies matters.
abbrev double_reply : List Event
double_reply =
    Run.reply_received reply
    ∷ Run.reply_received reply
    ∷ Run.own_probe 0 (some 9)
    ∷ Run.own_probe 0 (some 9)
    ∷ Run.runner_probe 0 (some 7)
    ∷ Run.grant_received false 100
    ∷ Run.runner_probe 0 (some 7)
    ∷ Run.grant_received false 101
    ∷ []

double_reply-shells : shells (run double_reply (started 9)).log ≡ 2
unfolding run step handle_hello_reply own_probe_done runner_probe_done handle_grant grant_shell
    start_shell stop
double_reply-shells = refl

known_message : is_guardian_message (some (string (text "grant"))) ≡ true
unfolding is_guardian_message text_eq
known_message = refl

unknown_message : is_guardian_message (some (string (text "granted"))) ≡ false
unfolding is_guardian_message text_eq
unknown_message = refl

run-KillsLate_example :
    let log = (run full_life (started 9)).log in (terms log ≤ 1) × (kills log ≤ 1) × KillsLate log
run-KillsLate_example = run-KillsLate 9 full_life

run-ShellsTimely_example :
    let log = (run full_life (started 9)).log in (shells log ≤ replies full_life) × ShellsTimely log
run-ShellsTimely_example = run-ShellsTimely 9 full_life
