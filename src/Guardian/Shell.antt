-- ===== src/Guardian/Shell.antt =====
-- src/guardian.ts: when a shell is started, and how often.
use pi_watch.Base.{
  ℕ, zero, suc, ◌+◌, ◌≤◌, ◌<◌, Bool, true, false, Option, none, some, List, [], ◌∷◌, length,
  get_elem?, ◌≡◌, refl, Option-cases, Bool-cases, inl, inr, arith, ℤ, Text,
}
use pi_watch.Evidence.Defs.{CleanupTermObservation}
use pi_watch.Guardian.Protocol.{State, ready, starting, GuardianMessage, topology}
use pi_watch.Guardian.Protocol
use pi_watch.Guardian.Machine.{
  Guardian, Effect, sent, spawned, terminated, killed, started, stop, cleanup, start_shell,
  grant_shell, handle_grant, handle_hello_reply, own_probe_done, runner_probe_done,
  shell_spawn_heard, shell_error_heard, shell_exit_heard, kill_timer_fired, deadline_timer_fired,
  readiness_timer_fired, sigterm, disconnected, without, is_stopped,
}
use pi_watch.Guardian.Run.{Event, step, run}
use pi_watch.Guardian.Run

abbrev pub shells : List Effect → ℕ
shells [] = 0
shells (sent m ∷ log) = shells log
shells (spawned t d ∷ log) = suc (shells log)
shells (terminated t ∷ log) = shells log
shells (killed t ∷ log) = shells log

-- The guardian has told the runner that both are in groups of their own.
abbrev pub topology_told : List Effect → Bool
topology_told [] = false
topology_told (sent (Protocol.topology true) ∷ log) = true
topology_told (sent m ∷ log) = topology_told log
topology_told (spawned t d ∷ log) = topology_told log
topology_told (terminated t ∷ log) = topology_told log
topology_told (killed t ∷ log) = topology_told log

-- Every shell is started before its deadline, and after the topology was told.
abbrev pub ShellsTimely : List Effect → Type 0
ShellsTimely [] = Unit
ShellsTimely (sent m ∷ log) = ShellsTimely log
ShellsTimely (spawned t d ∷ log) = (t < d) × (topology_told log ≡ true) × ShellsTimely log
ShellsTimely (terminated t ∷ log) = ShellsTimely log
ShellsTimely (killed t ∷ log) = ShellsTimely log

-- The verifications that run.
abbrev probes : Guardian → ℕ
probes g = length g.own_probes + length g.runner_probes

abbrev is_waiting : State → ℕ
is_waiting ready = 1
is_waiting _ = 0

-- After `n` replies. Each of them has one verification at most, which makes the guardian ready once,
-- for one shell; and no shell is there, or can come, before the topology was told.
record IsTimely (n : ℕ) (g : Guardian) : Type 0 where
  timely : ShellsTimely g.log
  counted : shells g.log + probes g + is_waiting g.state ≤ n
  untold :
      topology_told g.log ≡ false
      → (g.shell ≡ none)
        × (g.deadline_armed ≡ false)
        × (is_stopped g.state ≡ false → (g.state ≡ starting) × (g.connected ≡ true))

IsTimely-mono : {n : ℕ} (m : ℕ) (g : Guardian) → n ≤ m → IsTimely n g → IsTimely m g
IsTimely-mono m g le s = record {
  timely = s.timely;
  counted = omega (arith, s.counted);
  untold = s.untold;
}

length-without {ℓ} :
    {A : Type ℓ} (i : ℕ) (xs : List A) {x : A}
    → get_elem? xs i ≡ some x
    → length xs ≡ suc (length (without i xs))
length-without i [] h = ground arith
length-without zero (x ∷ xs) h = refl
length-without (suc i) (y ∷ xs) {x} h = ground (arith, length-without i xs {x = x} h)

own_probe_done-IsTimely :
    {n : ℕ} (i : ℕ) (own : Option ℕ) (g : Guardian)
    → IsTimely n g
    → IsTimely n (own_probe_done i own g)
unfolding own_probe_done
own_probe_done-IsTimely i own g s = elim (Option-cases (get_elem? g.own_probes i)) [
  | inl absent ↦ ground (arith, s, absent)
  | inr (pid, at) ↦ ground (arith, s, at, length-without i g.own_probes at)
]

runner_probe_done-IsTimely :
    {n : ℕ} (i : ℕ) (runner : Option ℕ) (g : Guardian)
    → IsTimely n g
    → IsTimely n (runner_probe_done i runner g)
unfolding runner_probe_done stop
runner_probe_done-IsTimely i runner g s = elim (Option-cases (get_elem? g.runner_probes i)) [
  | inl absent ↦ ground (arith, s, absent)
  | inr (own, at) ↦
      let fewer = length-without i g.runner_probes at in
      elim (Bool-cases (is_stopped g.state)) [
        | inl stopped ↦ ground (arith, s, at, fewer, stopped)
        | inr running ↦ elim (Bool-cases (topology_told g.log)) [
          | inl told ↦ ground (arith, s.timely, s.counted, at, fewer, running, told)
          | inr untold ↦
              let (no_shell, disarmed, early) = s.untold untold in
              let (first, connected) = early running in
              ground (
                arith, s.timely, s.counted, no_shell, disarmed, first, connected, at, fewer, untold,
              )
        ]
      ]
]

handle_grant-IsTimely :
    {n : ℕ} (throws : Bool) (now : ℕ) (g : Guardian)
    → IsTimely n g
    → IsTimely n (handle_grant throws now g)
unfolding handle_grant grant_shell start_shell stop
handle_grant-IsTimely throws now g s = ground (arith, s)

shell_exit_heard-IsTimely :
    {n : ℕ} (code : Option ℤ) (signal : Option Text) (observation : CleanupTermObservation)
    (now : ℕ) (g : Guardian)
    → IsTimely n g
    → IsTimely n (shell_exit_heard code signal observation now g)
unfolding shell_exit_heard cleanup
shell_exit_heard-IsTimely code signal observation now g s = ground (arith, s)

handle_hello_reply-IsTimely :
    {n : ℕ} (reply : Protocol.HelloReply) (g : Guardian)
    → IsTimely n g
    → IsTimely (1 + n) (handle_hello_reply reply g)
unfolding handle_hello_reply
handle_hello_reply-IsTimely reply g s = ground (arith, s)

disconnected-IsTimely :
    {n : ℕ} (observation : CleanupTermObservation) (now : ℕ) (g : Guardian)
    → IsTimely n g
    → IsTimely n (disconnected observation now g)
unfolding disconnected cleanup stop
disconnected-IsTimely observation now g s = ground (arith, s)

sigterm-IsTimely :
    {n : ℕ} (observation : CleanupTermObservation) (now : ℕ) (g : Guardian)
    → IsTimely n g
    → IsTimely n (sigterm observation now g)
unfolding sigterm cleanup stop
sigterm-IsTimely observation now g s = ground (arith, s)

kill_timer_fired-IsTimely :
    {n : ℕ} (now : ℕ) (g : Guardian) → IsTimely n g → IsTimely n (kill_timer_fired now g)
unfolding kill_timer_fired stop
kill_timer_fired-IsTimely now g s = ground (arith, s)

deadline_timer_fired-IsTimely :
    {n : ℕ} (observation : CleanupTermObservation) (now : ℕ) (g : Guardian)
    → IsTimely n g
    → IsTimely n (deadline_timer_fired observation now g)
unfolding deadline_timer_fired cleanup
deadline_timer_fired-IsTimely observation now g s = ground (arith, s)

readiness_timer_fired-IsTimely :
    {n : ℕ} (g : Guardian) → IsTimely n g → IsTimely n (readiness_timer_fired g)
unfolding readiness_timer_fired stop
readiness_timer_fired-IsTimely g s = ground (arith, s)

shell_spawn_heard-IsTimely :
    {n : ℕ} (pid : ℕ) (g : Guardian) → IsTimely n g → IsTimely n (shell_spawn_heard pid g)
unfolding shell_spawn_heard
shell_spawn_heard-IsTimely pid g s = ground (arith, s)

shell_error_heard-IsTimely :
    {n : ℕ} (g : Guardian) → IsTimely n g → IsTimely n (shell_error_heard g)
unfolding shell_error_heard stop
shell_error_heard-IsTimely g s = ground (arith, s)

-- The `hello_reply` messages among the events.
abbrev pub reply_of : Event → ℕ
reply_of (Run.reply_received reply) = 1
reply_of _ = 0

abbrev pub replies : List Event → ℕ
replies [] = 0
replies (e ∷ events) = reply_of e + replies events

step-IsTimely :
    (e : Event) {n : ℕ} (g : Guardian) → IsTimely n g → IsTimely (reply_of e + n) (step e g)
unfolding step
step-IsTimely (Run.reply_received reply) {n} g s =
    IsTimely-mono (1 + n) _ (omega arith) (handle_hello_reply-IsTimely reply g s)
step-IsTimely (Run.grant_received throws now) {n} g s =
    IsTimely-mono (0 + n) _ (omega arith) (handle_grant-IsTimely throws now g s)
step-IsTimely (Run.own_probe i own) {n} g s =
    IsTimely-mono (0 + n) _ (omega arith) (own_probe_done-IsTimely i own g s)
step-IsTimely (Run.runner_probe i runner) {n} g s =
    IsTimely-mono (0 + n) _ (omega arith) (runner_probe_done-IsTimely i runner g s)
step-IsTimely (Run.shell_spawn pid) {n} g s =
    IsTimely-mono (0 + n) _ (omega arith) (shell_spawn_heard-IsTimely pid g s)
step-IsTimely Run.shell_failed {n} g s =
    IsTimely-mono (0 + n) _ (omega arith) (shell_error_heard-IsTimely g s)
step-IsTimely (Run.shell_ended code signal observation now) {n} g s =
    IsTimely-mono (0 + n) _ (omega arith)
      (shell_exit_heard-IsTimely code signal observation now g s)
step-IsTimely (Run.kill_timer now) {n} g s =
    IsTimely-mono (0 + n) _ (omega arith) (kill_timer_fired-IsTimely now g s)
step-IsTimely (Run.deadline_timer observation now) {n} g s =
    IsTimely-mono (0 + n) _ (omega arith) (deadline_timer_fired-IsTimely observation now g s)
step-IsTimely Run.readiness_timer {n} g s =
    IsTimely-mono (0 + n) _ (omega arith) (readiness_timer_fired-IsTimely g s)
step-IsTimely (Run.term_received observation now) {n} g s =
    IsTimely-mono (0 + n) _ (omega arith) (sigterm-IsTimely observation now g s)
step-IsTimely (Run.disconnect observation now) {n} g s =
    IsTimely-mono (0 + n) _ (omega arith) (disconnected-IsTimely observation now g s)

run-IsTimely :
    (events : List Event) {n : ℕ} (g : Guardian)
    → IsTimely n g
    → IsTimely (replies events + n) (run events g)
unfolding run
run-IsTimely [] {n} g s = IsTimely-mono (0 + n) g (omega arith) s
run-IsTimely (e ∷ events) {n} g s =
    let rest = run-IsTimely events (step e g) (step-IsTimely e g s) in
    record { timely = rest.timely; counted = omega (arith, rest.counted); untold = rest.untold }

-- Whatever reaches a guardian and in whatever order, it starts no more shells than it gets
-- `hello_reply` messages, so at most one on one reply; each is started before the deadline of the
-- reply it runs under, and after the guardian told the runner that the topology is right.
pub run-ShellsTimely :
    (pid : ℕ) (events : List Event)
    → let log = (run events (started pid)).log in (shells log ≤ replies events) × ShellsTimely log
run-ShellsTimely pid events =
    let s = run-IsTimely events {n = 0} (started pid) (ground arith) in
    (omega (arith, s.counted), s.timely)
