-- ===== src/Runner/Machine.antt =====
-- src/runner.ts: the coordinator of `run` as a state, and the functions that its handlers share.
-- What a call of the store answers comes with a later event. The seams for tests are off.
use pi_watch.Base.{
  ℕ, ℤ, ◌+◌, Text, Bool, true, false, not, ◌&&◌, ◌||◌, Option, none, some, is_some, List, [], ◌∷◌,
  ◌++◌, ltb, if◌then◌else◌,
}
use pi_watch.Evidence.Defs.{
  CleanupTermObservation, StreamInput, EvidenceInput, launched, spawn_failed, unknown, unconfirmed,
  not_requested, not_required,
}
use pi_watch.Output.Page.{CaptureStream, standard_output, standard_error}
use pi_watch.Capture.Machine.{CaptureResult}

pub data CoordinatorState : Type 0 where
  observing cutting_over freezing publishing closed : CoordinatorState

-- `AttachedCapture`: whether there is a capture, what its listeners saw, and whether they are off.
pub record AttachedCapture : Type 0 where
  pub has_capture : Bool
  pub ended : Bool
  pub failed : Bool
  pub detached : Bool

-- A task of `publish`: its input, and whether it is final.
pub record Publication : Type 0 where
  pub input : EvidenceInput
  pub is_final : Bool

-- What the runner does to guardian, store and captures.
pub data Effect : Type 0 where
  replied authorized granted shut_down : Effect
  published : Publication → Effect
  accepted : CaptureStream → List ℕ → Effect
  ended : CaptureStream → Effect
  failed : CaptureStream → Effect
  seal_asked : CaptureStream → Effect
  cut : ℕ → Effect
  froze : ℕ → Effect
  staging_discarded : Effect

pub record Runner : Type 0 where
  pub revision : Option ℕ
  pub grant_sent : Bool
  pub grant_attempted : Bool
  pub launched_seen : Bool  -- `launched`
  pub shell_code : Option ℤ
  pub shell_signal : Option Text
  pub term : Option CleanupTermObservation
  pub kill_intent : Bool
  pub deadline_observed : Bool
  pub stopping : Bool
  pub settled : Bool
  pub is_closed : Bool  -- `closed`
  pub budget_begun : Bool
  pub cutover_deadline : Option ℕ
  pub capture_setup_failed : Bool
  pub topology_succeeded : Bool
  pub is_ready : Bool
  pub topology : Bool
  pub coordinator : CoordinatorState
  pub stdout_capture : Option AttachedCapture
  pub stderr_capture : Option AttachedCapture
  pub deciding : ℕ  -- calls of `decide` that wait for the store
  pub discarding : Bool  -- `publishSpawnFailure` waits for `discardCaptureStaging`
  pub sealing : Bool  -- `freezeAndPublish` waits for the seals
  pub waiting : List Publication  -- tasks of `publish` that have not begun
  pub in_flight : Option Publication  -- the task whose call of the store has no answer yet
  pub log : List Effect  -- newest first

-- The state once the runner holds its claim.
abbrev pub claimed : Runner
claimed = record {
  revision = none;
  grant_sent = false;
  grant_attempted = false;
  launched_seen = false;
  shell_code = none;
  shell_signal = none;
  term = none;
  kill_intent = false;
  deadline_observed = false;
  stopping = false;
  settled = false;
  is_closed = false;
  budget_begun = false;
  cutover_deadline = none;
  capture_setup_failed = false;
  topology_succeeded = false;
  is_ready = false;
  topology = false;
  coordinator = observing;
  stdout_capture = none;
  stderr_capture = none;
  deciding = 0;
  discarding = false;
  sealing = false;
  waiting = [];
  in_flight = none;
  log = [];
}

abbrev pub add : Effect → Runner → Runner
add e r = record r { log = e ∷ r.log }

-- `publish`, up to its first wait.
abbrev pub publish : EvidenceInput → Bool → Runner → Runner
publish input final r = record r {
  waiting = r.waiting ++ (record { input = input; is_final = final } ∷ []);
}

-- `detachCapture`
abbrev pub detach_capture : Option AttachedCapture → Option AttachedCapture
detach_capture none = none
detach_capture (some attached) = some (record attached { detached = true })

abbrev pub detach_both : Runner → Runner
detach_both r = record r {
  stdout_capture = detach_capture r.stdout_capture;
  stderr_capture = detach_capture r.stderr_capture;
}

-- `close`
unfoldable pub close : Runner → Runner
close r =
    if r.is_closed
    then r
    else add shut_down
        (record (detach_both r) { stopping = true; is_closed = true; coordinator = closed })

-- `abandon`
unfoldable pub abandon : Runner → Runner
unfolding close
abandon r = close (record r { stopping = true })

-- `publishSpawnFailure`, up to its first wait; the call of `latchStopping` is its guard.
unfoldable pub publish_spawn_failure : Runner → Runner
publish_spawn_failure r =
    if r.stopping || r.settled || r.is_closed
    then r
    else add staging_discarded (detach_both (record r { stopping = true; discarding = true }))

abbrev pub input_of : Bool → Bool → Bool → Bool → StreamInput
input_of available truncated incomplete open_at_cutover = record {
  available = some (some available);
  truncated = some truncated;
  incomplete = some incomplete;
  open_at_cutover = some open_at_cutover;
}

-- `UNAVAILABLE_COMPLETE`
abbrev pub unavailable_complete : StreamInput
unavailable_complete = input_of false false false false

abbrev pub no_input : EvidenceInput
no_input = record {
  launch = none;
  shell_code = none;
  shell_signal = none;
  cleanup_state = none;
  cleanup_term_observation = none;
  cleanup_kill_intent_observed = none;
  cancellation_intent_observed = none;
  deadline_trigger_observed = none;
  stdout = none;
  stderr = none;
  finalized = none;
}

abbrev pub spawn_failure_evidence : Runner → EvidenceInput
spawn_failure_evidence r = record no_input {
  launch = some spawn_failed;
  cleanup_state = some not_required;
  stdout = some unavailable_complete;
  stderr = some unavailable_complete;
  deadline_trigger_observed = some r.deadline_observed;
  finalized = some true;
}

abbrev pub launch_evidence : EvidenceInput
launch_evidence = record no_input {
  launch = some launched;
  cleanup_state = some not_requested;
  finalized = some false;
}

-- `resultFacts`
abbrev pub result_facts : CaptureResult → StreamInput
result_facts result =
    input_of result.available result.truncated result.incomplete result.open_at_cutover

abbrev pub has_ended : Option AttachedCapture → Bool
has_ended none = false
has_ended (some attached) = attached.ended

-- `unavailableCutoverFacts`
abbrev pub unavailable_cutover_facts : Option AttachedCapture → StreamInput
unavailable_cutover_facts attached = input_of false false true (not (has_ended attached))

abbrev pub has_output : Option AttachedCapture → Bool
has_output none = false
has_output (some attached) = attached.has_capture

-- What `freezeCapture` returns for a capture that seals with this result, and the choice in
-- `terminalEvidence`.
abbrev pub stream_facts : Bool → Option AttachedCapture → CaptureResult → StreamInput
stream_facts setup_failed attached result =
    if has_output attached && not setup_failed
    then result_facts result
    else unavailable_cutover_facts attached

-- `terminalEvidence`
unfoldable pub terminal_evidence : CaptureResult → CaptureResult → Runner → EvidenceInput
terminal_evidence output error r = record no_input {
  launch = some (if r.launched_seen then launched else unknown);
  shell_code = some r.shell_code;
  shell_signal = some r.shell_signal;
  cleanup_state = some (
      if r.launched_seen || r.deadline_observed || is_some r.term || r.kill_intent
      then unconfirmed
      else not_requested);
  cleanup_term_observation = some r.term;
  cleanup_kill_intent_observed = some r.kill_intent;
  deadline_trigger_observed = some r.deadline_observed;
  stdout = some (stream_facts r.capture_setup_failed r.stdout_capture output);
  stderr = some (stream_facts r.capture_setup_failed r.stderr_capture error);
  finalized = some true;
}

abbrev pub is_observing : CoordinatorState → Bool
is_observing observing = true
is_observing _ = false

abbrev pub is_cutting_over : CoordinatorState → Bool
is_cutting_over cutting_over = true
is_cutting_over _ = false

-- `CAPTURE_CUTOVER_MS`
abbrev pub capture_cutover_ms : ℕ
capture_cutover_ms = 1000

-- `beginCutover`
unfoldable pub begin_cutover : ℕ → Runner → Runner
begin_cutover now r =
    if not (is_observing r.coordinator) || r.stopping || r.is_closed
    then r
    else add (cut now) (record r {
      coordinator = cutting_over;
      cutover_deadline = some (now + capture_cutover_ms);
    })

-- `beginBudget`
unfoldable pub begin_budget : Runner → Runner
begin_budget r =
    if r.budget_begun || r.stopping || not (is_observing r.coordinator)
    then r
    else record r { budget_begun = true }

-- `freezeCapture`, up to its first wait: a capture is told again that its stream failed, if it did,
-- and asked for the seal.
abbrev pub freeze_capture : CaptureStream → Option AttachedCapture → Runner → Runner
freeze_capture stream none r = r
freeze_capture stream (some attached) r =
    if attached.has_capture
    then add (seal_asked stream) (if attached.failed then add (failed stream) r else r)
    else r

-- `freezeAndPublish`, up to its first wait.
unfoldable pub freeze_and_publish : ℕ → Runner → Runner
freeze_and_publish now r = elim r.cutover_deadline [
  | none ↦ r
  | some due ↦
      if not (is_cutting_over r.coordinator) || ltb now due
      then r
      else freeze_capture standard_error r.stderr_capture (
          freeze_capture standard_output r.stdout_capture (
            add (froze now)
              (detach_both (record r { coordinator = freezing; stopping = true; sealing = true }))))
]
