-- ===== src/Guardian/Signals.antt =====
-- src/guardian.ts: the signals that the guardian sends to its group.
use pi_watch.Base.{
  ℕ, suc, ◌+◌, ◌≤◌, Bool, true, false, ◌||◌, Option, none, some, List, [], ◌∷◌, leb, ◌≡◌, arith, ℤ,
  Text, Option-cases, inl, inr,
}
use pi_watch.Guardian.Machine.{
  Guardian, Effect, sent, spawned, terminated, killed, started, stop, cleanup, start_shell,
  grant_shell, handle_grant, handle_hello_reply, own_probe_done, runner_probe_done,
  shell_spawn_heard, shell_error_heard, shell_exit_heard, kill_timer_fired, deadline_timer_fired,
  readiness_timer_fired, sigterm, disconnected, grace_ms,
}
use pi_watch.Evidence.Defs.{CleanupTermObservation}
use pi_watch.Guardian.Run.{Event, step, run}
use pi_watch.Guardian.Run

-- A TERM was sent, and its grace is over at a time.
abbrev pub grace_over : ℕ → List Effect → Bool
grace_over now [] = false
grace_over now (sent m ∷ log) = grace_over now log
grace_over now (spawned t d ∷ log) = grace_over now log
grace_over now (terminated t ∷ log) = leb (t + grace_ms) now || grace_over now log
grace_over now (killed t ∷ log) = grace_over now log

abbrev pub terms : List Effect → ℕ
terms [] = 0
terms (sent m ∷ log) = terms log
terms (spawned t d ∷ log) = terms log
terms (terminated t ∷ log) = suc (terms log)
terms (killed t ∷ log) = terms log

abbrev pub kills : List Effect → ℕ
kills [] = 0
kills (sent m ∷ log) = kills log
kills (spawned t d ∷ log) = kills log
kills (terminated t ∷ log) = kills log
kills (killed t ∷ log) = suc (kills log)

-- Every KILL comes after a TERM and its grace.
abbrev pub KillsLate : List Effect → Type 0
KillsLate [] = Unit
KillsLate (sent m ∷ log) = KillsLate log
KillsLate (spawned t d ∷ log) = KillsLate log
KillsLate (terminated t ∷ log) = KillsLate log
KillsLate (killed t ∷ log) = (grace_over t log ≡ true) × KillsLate log

abbrev KillDue : Option ℕ → List Effect → Type 0
KillDue none log = Unit
KillDue (some due) log = (grace_over due log ≡ true) × (kills log ≡ 0)

record IsSignalled (g : Guardian) : Type 0 where
  late : KillsLate g.log
  few_terms : terms g.log ≤ 1
  few_kills : kills g.log ≤ 1
  due : KillDue g.kill_deadline g.log
  before :
      g.cleanup_started ≡ false → (terms g.log ≡ 0) × (kills g.log ≡ 0) × (g.kill_deadline ≡ none)

grace_over_mono :
    (a b : ℕ) (log : List Effect) → a ≤ b → grace_over a log ≡ true → grace_over b log ≡ true
grace_over_mono a b [] le h = ground arith
grace_over_mono a b (sent m ∷ log) le h = grace_over_mono a b log le h
grace_over_mono a b (spawned t d ∷ log) le h = grace_over_mono a b log le h
grace_over_mono a b (terminated t ∷ log) le h = ground (arith, grace_over_mono a b log le)
grace_over_mono a b (killed t ∷ log) le h = grace_over_mono a b log le h

stop-IsSignalled : (g : Guardian) → IsSignalled g → IsSignalled (stop g)
unfolding stop
stop-IsSignalled g s = ground (arith, s)

cleanup-IsSignalled :
    (by_deadline : Bool) (observation : CleanupTermObservation) (now : ℕ) (g : Guardian)
    → IsSignalled g
    → IsSignalled (cleanup by_deadline observation now g)
unfolding cleanup
cleanup-IsSignalled by_deadline observation now g s = ground (arith, s)

kill_timer_fired-IsSignalled :
    (now : ℕ) (g : Guardian) → IsSignalled g → IsSignalled (kill_timer_fired now g)
unfolding kill_timer_fired stop
kill_timer_fired-IsSignalled now g s = elim (Option-cases g.kill_deadline) [
  | inl unarmed ↦ ground (arith, s, unarmed)
  | inr (due, armed) ↦ ground (arith, s, armed, grace_over_mono due now g.log)
]

handle_grant-IsSignalled :
    (throws : Bool) (now : ℕ) (g : Guardian)
    → IsSignalled g
    → IsSignalled (handle_grant throws now g)
unfolding handle_grant grant_shell start_shell stop
handle_grant-IsSignalled throws now g s = ground (arith, s)

runner_probe_done-IsSignalled :
    (i : ℕ) (runner : Option ℕ) (g : Guardian)
    → IsSignalled g
    → IsSignalled (runner_probe_done i runner g)
unfolding runner_probe_done stop
runner_probe_done-IsSignalled i runner g s = ground (arith, s)

shell_exit_heard-IsSignalled :
    (code : Option ℤ) (signal : Option Text) (observation : CleanupTermObservation) (now : ℕ)
    (g : Guardian)
    → IsSignalled g
    → IsSignalled (shell_exit_heard code signal observation now g)
unfolding shell_exit_heard cleanup
shell_exit_heard-IsSignalled code signal observation now g s = ground (arith, s)

step-IsSignalled : (e : Event) (g : Guardian) → IsSignalled g → IsSignalled (step e g)
unfolding step handle_hello_reply own_probe_done shell_spawn_heard shell_error_heard
    deadline_timer_fired readiness_timer_fired sigterm disconnected cleanup stop
step-IsSignalled (Run.reply_received reply) g s = ground (arith, s)
step-IsSignalled (Run.grant_received throws now) g s = handle_grant-IsSignalled throws now g s
step-IsSignalled (Run.own_probe i own) g s = ground (arith, s)
step-IsSignalled (Run.runner_probe i runner) g s = runner_probe_done-IsSignalled i runner g s
step-IsSignalled (Run.shell_spawn pid) g s = ground (arith, s)
step-IsSignalled Run.shell_failed g s = ground (arith, s)
step-IsSignalled (Run.shell_ended code signal observation now) g s =
    shell_exit_heard-IsSignalled code signal observation now g s
step-IsSignalled (Run.kill_timer now) g s = kill_timer_fired-IsSignalled now g s
step-IsSignalled (Run.deadline_timer observation now) g s = ground (arith, s)
step-IsSignalled Run.readiness_timer g s = ground (arith, s)
step-IsSignalled (Run.term_received observation now) g s = ground (arith, s)
step-IsSignalled (Run.disconnect observation now) g s = ground (arith, s)

run-IsSignalled : (events : List Event) (g : Guardian) → IsSignalled g → IsSignalled (run events g)
unfolding run
run-IsSignalled [] g s = s
run-IsSignalled (e ∷ events) g s = run-IsSignalled events (step e g) (step-IsSignalled e g s)

-- In any run of the guardian TERM is sent at most once and KILL at most once, and KILL only after
-- TERM and its grace of 5,000 ms.
pub run-KillsLate :
    (pid : ℕ) (events : List Event)
    → let log = (run events (started pid)).log in (terms log ≤ 1) × (kills log ≤ 1) × KillsLate log
run-KillsLate pid events =
    let s = run-IsSignalled events (started pid) (ground arith) in
    (s.few_terms, s.few_kills, s.late)
