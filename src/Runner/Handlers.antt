-- ===== src/Runner/Handlers.antt =====
-- src/runner.ts: the handlers of `run`, and the events that reach a runner, in any order.
use pi_watch.Base.{
  ℕ, zero, suc, Bool, true, false, not, ◌&&◌, ◌||◌, Option, none, some, List, [], ◌∷◌,
  if◌then◌else◌,
}
use pi_watch.Evidence.Defs.{LaunchPhase, EvidenceInput, launch_eq}
use pi_watch.Output.Page.{CaptureStream, standard_output, standard_error}
use pi_watch.Capture.Machine.{CaptureResult}
use pi_watch.Guardian.Protocol.{
  ShellErrorReason, expired_before_spawn, GuardianMessage, hello, topology, shell_started,
  shell_error, shell_exit, cleanup_term, cleanup_kill_intent, deadline,
}
use pi_watch.Guardian.Protocol
use pi_watch.Store.Launch.{LaunchDisposition, authorized_now, suppressed_now}
use pi_watch.Store.Launch
use pi_watch.Runner.Machine.{
  observing, cutting_over, freezing, publishing, closed, AttachedCapture, Effect, replied,
  authorized, granted, published, accepted, ended, failed, Runner, add, publish, close, abandon,
  publish_spawn_failure, spawn_failure_evidence, launch_evidence, terminal_evidence, begin_cutover,
  begin_budget,
}

-- The call of `decideLaunch` in `decide` is made if this holds.
abbrev pub may_decide : Runner → Bool
may_decide r = r.is_ready && r.topology && not r.grant_sent && not r.stopping

-- `decide`, up to its first wait.
abbrev pub decide : Runner → Runner
decide r = if may_decide r then record r { deciding = suc r.deciding } else r

-- `prepareCapture`; the captures are there if the workspace was.
abbrev pub prepare_capture : Bool → Runner → Runner
prepare_capture workspace r =
    let attached : AttachedCapture = record {
      has_capture = workspace;
      ended = false;
      failed = false;
      detached = false;
    } in
    record r {
      capture_setup_failed = r.capture_setup_failed || not workspace;
      stdout_capture = some attached;
      stderr_capture = some attached;
    }

-- What `decide` finds after an authorization: a workspace, a guardian that is connected, a channel
-- that takes the grant, and the time.
pub record Grounds : Type 0 where
  pub workspace : Bool
  pub connected : Bool
  pub sends : Bool
  pub now : ℕ

unfoldable pub send_grant : Grounds → Runner → Runner
unfolding begin_cutover
send_grant grounds r =
    if r.stopping || not grounds.connected || r.grant_sent
    then r
    else (let marked = record r { grant_attempted = true; grant_sent = true } in
        if grounds.sends then add granted marked else begin_cutover grounds.now marked)

-- `decide` after the answer of the store; `none` if the call threw.
unfoldable pub decision_answered : Option LaunchDisposition → Grounds → Runner → Runner
unfolding abandon close send_grant
decision_answered none grounds r = abandon r
decision_answered (some disposition) grounds r = if r.stopping then r else elim disposition [
  | authorized_now ↦ send_grant grounds (prepare_capture grounds.workspace (add authorized r))
  | suppressed_now ↦ close (record r { stopping = true; settled = true })
  | Launch.already_decided ↦ abandon r
  | Launch.precluded ↦ abandon r
]

-- An answer of `decideLaunch`, if a call waits for one.
unfoldable pub decided : Option LaunchDisposition → Grounds → Runner → Runner
unfolding decision_answered
decided answer grounds r = elim r.deciding [
  | zero ↦ r
  | suc rest ↦ decision_answered answer grounds (record r { deciding = rest })
]

abbrev pub is_expired : ShellErrorReason → Bool
is_expired expired_before_spawn = true
is_expired _ = false

-- The message handler.
unfoldable pub message_heard : GuardianMessage → Runner → Runner
unfolding publish_spawn_failure begin_budget
message_heard message r = if r.stopping then r else elim message [
  | Protocol.hello pid ↦ add replied r
  | Protocol.hello_reply reply ↦ r
  | Protocol.topology ok ↦
      let told = record r { topology = ok } in
      if ok
      then decide (record told { topology_succeeded = true; is_ready = true })
      else publish_spawn_failure told
  | Protocol.grant ↦ r
  | Protocol.protocol_violation state ↦ r
  | Protocol.shell_started pid ↦ publish launch_evidence false (record r { launched_seen = true })
  | Protocol.shell_error reason ↦
      publish_spawn_failure
        (record r { deadline_observed = r.deadline_observed || is_expired reason })
  | Protocol.shell_exit code signal ↦
      begin_budget
        (if r.launched_seen then record r { shell_code = code; shell_signal = signal } else r)
  | Protocol.cleanup_term observation ↦ record r { term = some observation }
  | Protocol.cleanup_kill_intent ↦ record r { kill_intent = true }
  | Protocol.deadline ↦ begin_budget (record r { deadline_observed = true })
]

-- `handleGuardianLoss`, and the handler of the guardian's exit.
unfoldable pub guardian_lost : ℕ → Runner → Runner
unfolding publish_spawn_failure begin_cutover abandon close
guardian_lost now r =
    if r.stopping
    then r
    else (if not r.topology_succeeded
        then publish_spawn_failure r
        else (if r.grant_attempted then begin_cutover now r else abandon r))

unfoldable pub guardian_exited : ℕ → Runner → Runner
unfolding publish_spawn_failure begin_cutover abandon close
guardian_exited now r =
    if r.stopping
    then r
    else (if not r.topology_succeeded
        then publish_spawn_failure r
        else (if r.grant_sent then begin_cutover now r else abandon r))

-- The timer of the readiness.
unfoldable pub readiness_fired : Runner → Runner
unfolding publish_spawn_failure
readiness_fired r = if r.topology_succeeded || r.stopping then r else publish_spawn_failure r

-- `freezeAndPublish` after its captures have sealed.
unfoldable pub captures_sealed : CaptureResult → CaptureResult → Runner → Runner
unfolding terminal_evidence
captures_sealed output error r =
    if r.sealing
    then publish (terminal_evidence output error r) true
        (record r { coordinator = publishing; sealing = false })
    else r

-- `publishSpawnFailure` after its first wait.
unfoldable pub staging_gone : Runner → Runner
staging_gone r =
    if r.discarding
    then publish (spawn_failure_evidence r) true (record r { discarding = false })
    else r

-- A task of `publish` begins: nothing if it is outrun, and otherwise a call of `publishResult`.
unfoldable pub publish_next : Runner → Runner
unfolding close
publish_next r = elim r.in_flight [
  | some busy ↦ r
  | none ↦ elim r.waiting [
    | [] ↦ r
    | task ∷ rest ↦
        let taken = record r { waiting = rest } in
        if (r.settled && not task.is_final) || r.is_closed
        then (if task.is_final then close taken else taken)
        else add (published task) (record taken { in_flight = some task })
  ]
]

-- What `observeJob` says of a job whose launch publication failed.
pub record Observed : Type 0 where
  pub finalized : Bool
  pub launch : LaunchPhase
  pub latest_revision : ℕ

abbrev pub claims : Option LaunchPhase → LaunchPhase → Bool
claims none phase = false
claims (some launch) phase = launch_eq phase launch

abbrev pub reobserve : EvidenceInput → Option Observed → Runner → Runner
reobserve input none r = r
reobserve input (some seen) r =
    if not seen.finalized && claims input.launch seen.launch
    then record r { revision = some seen.latest_revision }
    else r

-- The end of a task: `publishResult` returned a revision or threw, and what was observed then. A
-- final publication is followed by `close`.
unfoldable pub publish_answered : Option ℕ → Option Observed → Runner → Runner
unfolding close
publish_answered answer seen r = elim r.in_flight [
  | none ↦ r
  | some task ↦
      let rest = record r { in_flight = none } in
      elim answer [
        | none ↦ if task.is_final then close rest else reobserve task.input seen rest
        | some revision ↦
            let stored = record rest { revision = some revision } in
            if task.is_final then close (record stored { settled = true }) else stored
      ]
]

-- The listeners of a stream hear nothing once the coordinator froze it.
abbrev pub is_frozen : Runner → Bool
is_frozen r = elim r.coordinator [
  | freezing ↦ true
  | publishing ↦ true
  | observing ↦ r.is_closed
  | cutting_over ↦ r.is_closed
  | closed ↦ r.is_closed
]

abbrev pub capture_of : CaptureStream → Runner → Option AttachedCapture
capture_of standard_output r = r.stdout_capture
capture_of standard_error r = r.stderr_capture

abbrev pub set_capture : CaptureStream → AttachedCapture → Runner → Runner
set_capture standard_output attached r = record r { stdout_capture = some attached }
set_capture standard_error attached r = record r { stderr_capture = some attached }

-- Whether a listener of the stream goes on, and its capture.
abbrev pub listening : CaptureStream → Runner → Option AttachedCapture
listening stream r = elim (capture_of stream r) [
  | none ↦ none
  | some attached ↦ if attached.detached || is_frozen r then none else some attached
]

-- An effect on a capture, if there is one.
abbrev pub on_capture : AttachedCapture → Effect → Runner → Runner
on_capture attached e r = if attached.has_capture then add e r else r

-- `onData`, `onEnd` and `onError`
unfoldable pub on_data : CaptureStream → List ℕ → Runner → Runner
on_data stream chunk r = elim (listening stream r) [
  | none ↦ r
  | some attached ↦ on_capture attached (accepted stream chunk) r
]

unfoldable pub on_end : CaptureStream → Runner → Runner
on_end stream r = elim (listening stream r) [
  | none ↦ r
  | some attached ↦
      on_capture attached (ended stream) (set_capture stream (record attached { ended = true }) r)
]

unfoldable pub on_error : CaptureStream → Runner → Runner
on_error stream r = elim (listening stream r) [
  | none ↦ r
  | some attached ↦
      on_capture attached (failed stream) (set_capture stream (record attached { failed = true }) r)
]
