-- ===== src/Guardian/Machine.antt =====
-- src/guardian.ts: the guardian as a state and its handlers. A handler takes what it reads from the
-- clock and what the system answers as arguments.
use pi_watch.Base.{
  ℕ, ℤ, zero, suc, ◌+◌, Text, Bool, true, false, not, ◌&&◌, ◌||◌, Option, none, some, List, [], ◌∷◌,
  leb, ltb, ◌==◌, get_elem?, if◌then◌else◌,
}
use pi_watch.Evidence.Defs.{CleanupTermObservation}
use pi_watch.Guardian.Protocol.{
  HelloReply, State, starting, ready, granted, shell_spawned, cleaning, exited, refused,
  GuardianMessage, hello, topology, protocol_violation, shell_started, shell_error, shell_exit,
  cleanup_term, cleanup_kill_intent, deadline, spawn, expired_before_spawn,
}

-- What the guardian does to the world. A shell is started at a time, for a command with a
-- deadline; TERM and KILL go to the guardian's own group.
pub data Effect : Type 0 where
  sent : GuardianMessage → Effect
  spawned : ℕ → ℕ → Effect
  terminated : ℕ → Effect
  killed : ℕ → Effect

-- The timer that `deadlineTimer` holds.
pub data Handle : Type 0 where
  no_timer deadline_handle kill_handle : Handle

-- The listeners of the shell that have not run.
pub record Shell : Type 0 where
  pub on_spawn : Bool
  pub on_error : Bool
  pub on_exit : Bool

pub record Guardian : Type 0 where
  pub pid : ℕ
  pub state : State
  pub shell : Option Shell
  pub cleanup_started : Bool
  pub handle : Handle
  pub deadline_armed : Bool
  pub kill_deadline : Option ℕ
  pub readiness_armed : Bool
  pub hello_reply : Option HelloReply
  pub shell_exited : Bool
  pub connected : Bool
  pub own_probes : List ℕ  -- `verifyTopology` waits for its own group: the runner's pid
  pub runner_probes : List (Option ℕ)  -- it waits for the runner's group: its own
  pub log : List Effect  -- newest first

-- `sendGuardianMessage`
abbrev pub send : GuardianMessage → Guardian → Guardian
send message g = if g.connected then record g { log = sent message ∷ g.log } else g

-- The state after the module has run, on a connected process.
abbrev pub started : ℕ → Guardian
started pid = record {
  pid = pid;
  state = starting;
  shell = none;
  cleanup_started = false;
  handle = no_timer;
  deadline_armed = false;
  kill_deadline = none;
  readiness_armed = true;
  hello_reply = none;
  shell_exited = false;
  connected = true;
  own_probes = [];
  runner_probes = [];
  log = sent (hello pid) ∷ [];
}

abbrev clear_handle : Handle → Guardian → Guardian
clear_handle no_timer g = g
clear_handle deadline_handle g = record g { deadline_armed = false }
clear_handle kill_handle g = record g { kill_deadline = none }

-- `stop`; it clears the timer that the handle holds.
unfoldable pub stop : Guardian → Guardian
stop g = record (clear_handle g.handle g) {
  readiness_armed = false;
  state = exited;
  connected = false;
}

abbrev pub is_stopped : State → Bool
is_stopped exited = true
is_stopped refused = true
is_stopped _ = false

abbrev pub grace_ms : ℕ
grace_ms = 5000

-- `cleanup`; TERM returns or fails as the observation says, at the time `now`.
unfoldable pub cleanup : Bool → CleanupTermObservation → ℕ → Guardian → Guardian
cleanup by_deadline observation now g =
    if g.cleanup_started || is_stopped g.state
    then g
    else (let started_one = record g { cleanup_started = true; state = cleaning } in
        let told = if by_deadline then send deadline started_one else started_one in
        let signalled = record told { log = terminated now ∷ told.log } in
        record (send (cleanup_term observation) signalled) {
          handle = kill_handle;
          kill_deadline = some (now + grace_ms);
        })

abbrev pub is_ready : State → Bool
is_ready ready = true
is_ready _ = false

-- What `spawn` does: it throws, or a shell starts.
unfoldable pub start_shell : Bool → ℕ → HelloReply → Guardian → Guardian
unfolding stop
start_shell throws now reply g = if throws then stop (send (shell_error spawn) g) else record g {
  shell = some (record { on_spawn = true; on_error = true; on_exit = true });
  log = spawned now reply.deadline_at_ms ∷ g.log;
}

-- `handleGrant` from its first test on; `now` is `Date.now()`.
unfoldable pub grant_shell : Bool → ℕ → HelloReply → Guardian → Guardian
unfolding stop start_shell
grant_shell throws now reply g =
    let open_one = record g { state = granted } in
    if leb reply.deadline_at_ms now
    then stop (send (shell_error expired_before_spawn) (send deadline open_one))
    else start_shell throws now reply
        (record open_one { handle = deadline_handle; deadline_armed = true })

unfoldable pub handle_grant : Bool → ℕ → Guardian → Guardian
unfolding grant_shell
handle_grant throws now g = elim g.hello_reply [
  | none ↦ send (protocol_violation g.state) g
  | some reply ↦
      if is_ready g.state
      then grant_shell throws now reply g
      else send (protocol_violation g.state) g
]

-- The message handler on a `hello_reply`.
unfoldable pub handle_hello_reply : HelloReply → Guardian → Guardian
handle_hello_reply reply g = elim g.state [
  | starting ↦ record g {
    hello_reply = some reply;
    readiness_armed = false;
    own_probes = reply.runner_pid ∷ g.own_probes;
  }
  | ready ↦ g
  | granted ↦ g
  | shell_spawned ↦ g
  | cleaning ↦ g
  | exited ↦ g
  | refused ↦ g
]

-- The list without the element at a place.
abbrev pub without {ℓ} : {A : Type ℓ} → ℕ → List A → List A
without i [] = []
without zero (x ∷ xs) = xs
without (suc i) (x ∷ xs) = x ∷ without i xs

-- `verifyTopology` after its first probe.
unfoldable pub own_probe_done : ℕ → Option ℕ → Guardian → Guardian
own_probe_done i own g = elim (get_elem? g.own_probes i) [
  | none ↦ g
  | some runner_pid ↦
      let rest = record g { own_probes = without i g.own_probes } in
      if is_stopped g.state then rest else record rest { runner_probes = own ∷ g.runner_probes }
]

abbrev pub topology_ok : ℕ → Option ℕ → Option ℕ → Bool
topology_ok pid (some own) (some runner) = (own == pid) && not (own == runner)
topology_ok pid _ _ = false

-- `verifyTopology` after its second probe.
unfoldable pub runner_probe_done : ℕ → Option ℕ → Guardian → Guardian
unfolding stop
runner_probe_done i runner g = elim (get_elem? g.runner_probes i) [
  | none ↦ g
  | some own ↦
      let rest = record g { runner_probes = without i g.runner_probes } in
      if is_stopped g.state
      then rest
      else (if topology_ok g.pid own runner
          then record (send (topology true) rest) { state = ready }
          else stop (record (send (topology false) rest) { state = refused }))
]

-- The listeners of the shell.
unfoldable pub shell_spawn_heard : ℕ → Guardian → Guardian
shell_spawn_heard shell_pid g = elim g.shell [
  | none ↦ g
  | some s ↦
      if s.on_spawn
      then send (shell_started shell_pid)
          (record g { shell = some (record s { on_spawn = false }); state = shell_spawned })
      else g
]

unfoldable pub shell_error_heard : Guardian → Guardian
unfolding stop
shell_error_heard g = elim g.shell [
  | none ↦ g
  | some s ↦
      let heard = record g { shell = some (record s { on_error = false }) } in
      if s.on_error
      then (if g.shell_exited then heard else stop (send (shell_error spawn) heard))
      else g
]

unfoldable pub shell_exit_heard :
    Option ℤ → Option Text → CleanupTermObservation → ℕ → Guardian → Guardian
unfolding cleanup
shell_exit_heard code signal observation now g = elim g.shell [
  | none ↦ g
  | some s ↦
      if s.on_exit
      then cleanup false observation now (
          send (shell_exit code signal)
            (record g { shell = some (record s { on_exit = false }); shell_exited = true }))
      else g
]

-- The timer of `scheduleCleanupKill`, which may fire early.
unfoldable pub kill_timer_fired : ℕ → Guardian → Guardian
unfolding stop
kill_timer_fired now g = elim g.kill_deadline [
  | none ↦ g
  | some due ↦
      if ltb now due
      then record g { handle = kill_handle }
      else (let told = send cleanup_kill_intent g in
          stop (record told { kill_deadline = none; log = killed now ∷ told.log }))
]

unfoldable pub deadline_timer_fired : CleanupTermObservation → ℕ → Guardian → Guardian
unfolding cleanup
deadline_timer_fired observation now g =
    if g.deadline_armed
    then cleanup true observation now (record g { deadline_armed = false })
    else g

unfoldable pub readiness_timer_fired : Guardian → Guardian
unfolding stop
readiness_timer_fired g =
    if g.readiness_armed then stop (record g { readiness_armed = false; state = refused }) else g

-- The handlers of SIGTERM and of `disconnect`.
unfoldable pub sigterm : CleanupTermObservation → ℕ → Guardian → Guardian
unfolding cleanup stop
sigterm observation now g = elim g.state [
  | granted ↦ cleanup false observation now g
  | shell_spawned ↦ cleanup false observation now g
  | cleaning ↦ cleanup false observation now g
  | starting ↦ stop g
  | ready ↦ stop g
  | exited ↦ stop g
  | refused ↦ stop g
]

unfoldable pub disconnected : CleanupTermObservation → ℕ → Guardian → Guardian
unfolding cleanup stop
disconnected observation now before =
    let g = record before { connected = false } in
    elim before.state [
      | granted ↦ cleanup false observation now g
      | shell_spawned ↦ cleanup false observation now g
      | exited ↦ g
      | starting ↦ stop g
      | ready ↦ stop g
      | cleaning ↦ stop g
      | refused ↦ stop g
    ]
