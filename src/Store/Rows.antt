-- ===== src/Store/Rows.antt =====
-- src/job-store.ts: the conversions between rows and records, and the records themselves.
use pi_watch.Base.{
  ℕ, Text, Bool, true, not, ◌&&◌, Option, none, some, is_some, ◌==◌, if◌then◌else◌, ◌≡◌, arith,
}
use pi_watch.JobTypes.Errors.{Result, ok, err, store_error, store_corrupt}
use pi_watch.Evidence.Defs.{
  LaunchPhase, launch_eq, CleanupState, cleanup_eq, CleanupTermObservation, StreamCaptureFacts,
  ExecutionEvidence,
}
use pi_watch.Evidence.Defs
use pi_watch.Store.Tables.{
  RequestNamespace, JobState, LaunchDecision, DecisionText, known, other, JobRow, ControlRow,
  ResultRow,
}

pub record JobRecord : Type 0 where
  pub job_id : Text
  pub owner_uuid : Text
  pub owner_session_path : Text
  pub namespace : RequestNamespace
  pub request_key : Text
  pub command : Text
  pub cwd : Text
  pub deadline_ms : ℕ
  pub accepted_at_ms : ℕ
  pub deadline_at_ms : ℕ
  pub creation_ordinal : ℕ
  pub state : JobState

-- `rowToJob`: the token's hash stays behind.
unfoldable pub row_to_job : JobRow → JobRecord
row_to_job row = record {
  job_id = row.job_id;
  owner_uuid = row.owner_uuid;
  owner_session_path = row.owner_session_path;
  namespace = row.request_namespace;
  request_key = row.request_key;
  command = row.command;
  cwd = row.cwd;
  deadline_ms = row.deadline_ms;
  accepted_at_ms = row.accepted_at_ms;
  deadline_at_ms = row.deadline_at_ms;
  creation_ordinal = row.creation_ordinal;
  state = row.state;
}

pub record JobControlSnapshot : Type 0 where
  pub cancellation_requested_at_ms : Option ℕ
  pub launch_decision : Option LaunchDecision
  pub decided_at_ms : Option ℕ

-- The control state with its decision read, and the check that it has a time exactly if it is made.
control_snapshot : Option ℕ → Option LaunchDecision → Option ℕ → Result JobControlSnapshot
control_snapshot requested decision decided =
    if is_some decision && is_some decided
    then ok (record {
      cancellation_requested_at_ms = requested;
      launch_decision = decision;
      decided_at_ms = decided;
    })
    else (if is_some decision
        then err (store_error store_corrupt "Store control state is missing or unsupported.")
        else (if is_some decided
            then err (store_error store_corrupt "Store control state is missing or unsupported.")
            else ok (record {
              cancellation_requested_at_ms = requested;
              launch_decision = decision;
              decided_at_ms = decided;
            })))

row_decision : Option DecisionText → Option ℕ → Option ℕ → Result JobControlSnapshot
unfolding control_snapshot
row_decision none requested decided = control_snapshot requested none decided
row_decision (some (known d)) requested decided = control_snapshot requested (some d) decided
row_decision (some (other t)) requested decided =
    err (store_error store_corrupt "Store control state is missing or unsupported.")

-- `rowToControl`
unfoldable pub row_to_control : Option ControlRow → Result JobControlSnapshot
unfolding row_decision
row_to_control none =
    err (store_error store_corrupt "Store control state is missing or unsupported.")
row_to_control (some row) =
    row_decision row.launch_decision row.cancellation_requested_at_ms row.decided_at_ms

-- A truth value as a column, and back.
abbrev pub bit : Bool → ℕ
bit b = if b then 1 else 0

abbrev pub is_set : ℕ → Bool
is_set n = n == 1

abbrev pub nullable_bit : Option Bool → Option ℕ
nullable_bit none = none
nullable_bit (some b) = some (bit b)

abbrev pub nullable_is_set : Option ℕ → Option Bool
nullable_is_set none = none
nullable_is_set (some n) = some (is_set n)

-- `rowToEvidence`
unfoldable pub row_to_evidence : ResultRow → ExecutionEvidence
row_to_evidence row = record {
  launch = row.launch;
  shell_code = row.shell_code;
  shell_signal = row.shell_signal;
  cleanup_state = row.cleanup_state;
  cleanup_term_observation = row.cleanup_term_observation;
  cleanup_kill_intent_observed = is_set row.cleanup_kill_intent;
  cancellation_intent_observed = is_set row.cancellation_intent;
  deadline_trigger_observed = is_set row.deadline_trigger;
  stdout = record {
    available = nullable_is_set row.stdout_available;
    truncated = is_set row.stdout_truncated;
    incomplete = is_set row.stdout_incomplete;
    open_at_cutover = is_set row.stdout_open_at_cutover;
  };
  stderr = record {
    available = nullable_is_set row.stderr_available;
    truncated = is_set row.stderr_truncated;
    incomplete = is_set row.stderr_incomplete;
    open_at_cutover = is_set row.stderr_open_at_cutover;
  };
  uncertain = is_set row.uncertain;
  finalized = is_set row.finalized;
}

-- `evidenceToParams`, as the row that the INSERT of RESULT_COLUMNS makes of it.
unfoldable pub evidence_to_row : ℕ → ExecutionEvidence → ℕ → ResultRow
evidence_to_row revision e published_at_ms = record {
  revision = revision;
  launch = e.launch;
  shell_code = e.shell_code;
  shell_signal = e.shell_signal;
  cleanup_state = e.cleanup_state;
  cleanup_term_observation = e.cleanup_term_observation;
  cleanup_kill_intent = bit e.cleanup_kill_intent_observed;
  cancellation_intent = bit e.cancellation_intent_observed;
  deadline_trigger = bit e.deadline_trigger_observed;
  stdout_available = nullable_bit e.stdout.available;
  stdout_truncated = bit e.stdout.truncated;
  stdout_incomplete = bit e.stdout.incomplete;
  stdout_open_at_cutover = bit e.stdout.open_at_cutover;
  stderr_available = nullable_bit e.stderr.available;
  stderr_truncated = bit e.stderr.truncated;
  stderr_incomplete = bit e.stderr.incomplete;
  stderr_open_at_cutover = bit e.stderr.open_at_cutover;
  uncertain = bit e.uncertain;
  finalized = bit e.finalized;
  published_at_ms = published_at_ms;
}

is_unobserved : StreamCaptureFacts → Bool
is_unobserved facts =
    not (is_some facts.available)
    && (not facts.truncated && (not facts.incomplete && not facts.open_at_cutover))

-- `isInitialEvidenceOnly`
unfoldable pub is_initial_evidence_only : Option ResultRow → Bool
unfolding is_unobserved
is_initial_evidence_only none = true
is_initial_evidence_only (some row) =
    let e = row_to_evidence row in
    not (is_set row.finalized)
    && (launch_eq e.launch Defs.unknown
        && (not (is_some e.shell_code)
            && (not (is_some e.shell_signal)
                && (cleanup_eq e.cleanup_state Defs.not_requested
                    && (not (is_some e.cleanup_term_observation)
                        && (not e.cleanup_kill_intent_observed
                            && (not e.cancellation_intent_observed
                                && (not e.deadline_trigger_observed
                                    && (is_unobserved e.stdout && is_unobserved e.stderr)))))))))

is_set-bit : (b : Bool) → is_set (bit b) ≡ b
is_set-bit b = ground arith

nullable_is_set-nullable_bit : (b : Option Bool) → nullable_is_set (nullable_bit b) ≡ b
nullable_is_set-nullable_bit b = ground arith

-- A snapshot that is written to the results table reads back unchanged.
pub row_to_evidence-evidence_to_row :
    (revision : ℕ) (e : ExecutionEvidence) (published_at_ms : ℕ)
    → row_to_evidence (evidence_to_row revision e published_at_ms) ≡ e
unfolding row_to_evidence evidence_to_row
row_to_evidence-evidence_to_row revision e published_at_ms =
    simp (is_set-bit, nullable_is_set-nullable_bit)
