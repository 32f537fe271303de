-- ===== src/Store/Launch.antt =====
-- src/job-store.ts: `requestCancellation`, `claimRunner`, `decideLaunch` and `heartbeat`, as
-- bodies of transactions over validated arguments.
use pi_watch.Base.{
  ℕ, ◌+◌, Text, text_eq, Bool, true, false, not, ◌&&◌, ◌||◌, Option, none, some, is_some, List, [],
  ◌∷◌, leb, ◌==◌, if◌then◌else◌, every, length,
}
use pi_watch.JobTypes.Errors.{
  Result, ok, err, ◌>>=◌, ◌>>◌, throw_if, store_error, claim_taken, revision_stale,
}
use pi_watch.JobTypes.Validate.{is_letter, is_digit}
use pi_watch.Evidence.Defs.{ExecutionEvidence, EvidenceInput, StreamInput, initial_evidence}
use pi_watch.Evidence.Defs
use pi_watch.Evidence.Merge.{merge_evidence}
use pi_watch.Store.Tables.{
  JobState, reserved, claimed, settled, LaunchDecision, authorized, suppressed_cancelled,
  suppressed_deadline, known, JobRow, ControlRow, ClaimRow, ResultRow, Db, Body, update,
  get_job_row, latest_of, unique_violation, update_job_state, insert_result, insert_notice,
}
use pi_watch.Store.Rows.{
  JobControlSnapshot, row_to_control, row_to_evidence, evidence_to_row, is_initial_evidence_only,
  is_set,
}

abbrev pub is_settled : JobState → Bool
is_settled settled = true
is_settled reserved = false
is_settled claimed = false

abbrev pub is_reserved : JobState → Bool
is_reserved reserved = true
is_reserved claimed = false
is_reserved settled = false

-- `latest?.finalized === 1`
abbrev pub latest_finalized : Option ResultRow → Bool
latest_finalized none = false
latest_finalized (some row) = is_set row.finalized

-- `latest?.revision ?? 0`
abbrev pub latest_revision : Option ResultRow → ℕ
latest_revision none = 0
latest_revision (some row) = row.revision

-- `latest === undefined ? initialEvidence() : rowToEvidence(latest)`
unfoldable pub latest_evidence : Option ResultRow → ExecutionEvidence
latest_evidence none = initial_evidence
latest_evidence (some row) = row_to_evidence row

-- `/^[A-Za-z0-9_-]{43}$/`
abbrev pub is_token_unit : ℕ → Bool
is_token_unit c = is_letter c || (is_digit c || (c == b'_' || c == b'-'))

unfoldable pub matches_token : Text → Bool
matches_token token = (length token == 43) && every is_token_unit token

-- `assertRunnerToken`; a token that is null, as after a replay, is `none`.
unfoldable pub assert_runner_token : (Text → Text) → JobRow → Option Text → Result (Unit {0})
unfolding matches_token
assert_runner_token sha256 job none =
    err (store_error claim_taken "Original runner capability required.")
assert_runner_token sha256 job (some token) =
    throw_if (not (matches_token token) || not (text_eq (sha256 token) job.runner_token_hash))
      (store_error claim_taken "Original runner capability required.")

pub data CancellationDisposition : Type 0 where
  recorded already_recorded already_terminal : CancellationDisposition

pub record CancellationResult : Type 0 where
  pub disposition : CancellationDisposition
  pub control : JobControlSnapshot

-- `UPDATE job_control SET cancellation_requested_at_ms = ? WHERE job_id = ?`
abbrev pub set_cancellation : Text → ℕ → Option ControlRow → Db → Db
set_cancellation job_id at none db = db
set_cancellation job_id at (some row) db = record db {
  controls =
      update db.controls job_id (some (record row { cancellation_requested_at_ms = some at }));
}

-- The body of `requestCancellation`; `now` is what the clock reads.
unfoldable pub request_cancellation : ℕ → Text → Text → Body CancellationResult
request_cancellation now owner job_id db = do
  job ← get_job_row job_id owner db
  control ← row_to_control (db.controls job_id)
  let latest = latest_of (db.results job_id)
  if is_settled job.state || latest_finalized latest
      then ok (record { disposition = already_terminal; control = control }, db)
      else (if is_some control.cancellation_requested_at_ms
          then ok (record { disposition = already_recorded; control = control }, db)
          else ok (
            record {
              disposition = recorded;
              control = record control { cancellation_requested_at_ms = some now };
            },
            set_cancellation job_id now (db.controls job_id) db,
          ))

pub record RunnerClaim : Type 0 where
  pub claim_id : Text
  pub claimed_at_ms : ℕ
  pub heartbeat_counter : ℕ

-- `claim_id TEXT NOT NULL UNIQUE`: some job has a claim of this id.
unfoldable pub claim_id_taken : Text → List JobRow → (Text → Option ClaimRow) → Bool
claim_id_taken claim [] claims = false
claim_id_taken claim (j ∷ jobs) claims = elim (claims j.job_id) [
  | none ↦ claim_id_taken claim jobs claims
  | some row ↦ text_eq row.claim_id claim || claim_id_taken claim jobs claims
]

-- The body of `claimRunner`.
unfoldable pub claim_runner :
    (Text → Text) → ℕ → Text → Text → Text → Option Text → Body RunnerClaim
unfolding assert_runner_token
claim_runner sha256 now owner job_id claim token db = do
  job ← get_job_row job_id owner db
  assert_runner_token sha256 job token
  throw_if (is_some (db.claims job_id) || not (is_reserved job.state))
      (store_error claim_taken "This reservation was already claimed.")
  throw_if (claim_id_taken claim db.jobs db.claims) unique_violation
  ok (
    record { claim_id = claim; claimed_at_ms = now; heartbeat_counter = 0 },
    update_job_state claimed job_id (record db {
      claims = update db.claims job_id (
          some (record {
            claim_id = claim;
            claimed_at_ms = now;
            heartbeat_counter = 0;
            heartbeat_at_ms = none;
          }));
    }),
  )

-- `durableClaim === undefined || durableClaim.claim_id !== claim`
abbrev pub lacks_claim : Option ClaimRow → Text → Bool
lacks_claim none claim = true
lacks_claim (some row) claim = not (text_eq row.claim_id claim)

pub data LaunchDisposition : Type 0 where
  authorized_now suppressed_now already_decided precluded : LaunchDisposition

pub record LaunchDecisionResult : Type 0 where
  pub disposition : LaunchDisposition
  pub control : JobControlSnapshot

abbrev unavailable : StreamInput
unavailable = record {
  available = some (some false);
  truncated = some false;
  incomplete = some false;
  open_at_cutover = some false;
}

-- The observation that `decideLaunch` merges when it suppresses a launch.
abbrev pub suppression_evidence : Bool → EvidenceInput
suppression_evidence cancelled = record {
  launch = some (if cancelled then Defs.suppressed_cancelled else Defs.suppressed_deadline);
  shell_code = none;
  shell_signal = none;
  cleanup_state = some Defs.not_required;
  cleanup_term_observation = none;
  cleanup_kill_intent_observed = none;
  cancellation_intent_observed = some cancelled;
  deadline_trigger_observed = some (not cancelled);
  stdout = some unavailable;
  stderr = some unavailable;
  finalized = some true;
}

-- `UPDATE job_control SET launch_decision = ?, decided_at_ms = ? WHERE job_id = ?`
abbrev pub set_decision : Text → LaunchDecision → ℕ → Option ControlRow → Db → Db
set_decision job_id decision at none db = db
set_decision job_id decision at (some row) db = record db {
  controls =
      update db.controls job_id
        (some (record row { launch_decision = some (known decision); decided_at_ms = some at }));
}

-- The branch of `decideLaunch` that suppresses: decision, final revision, notice, settled state.
unfoldable pub suppress_launch :
    ℕ → Text → JobRow → JobControlSnapshot → Bool → Body LaunchDecisionResult
suppress_launch now job_id job control cancelled db = do
  let latest = latest_of (db.results job_id)
  merged ← merge_evidence (latest_evidence latest) (suppression_evidence cancelled) false true
  let decision = if cancelled then suppressed_cancelled else suppressed_deadline
  let revision = latest_revision latest + 1
  let decided = set_decision job_id decision now (db.controls job_id) db
  published ← insert_result job_id (evidence_to_row revision merged now) decided
  notified ← insert_notice job_id revision job.owner_uuid published
  ok (
    record {
      disposition = suppressed_now;
      control = record control { launch_decision = some decision; decided_at_ms = some now };
    },
    update_job_state settled job_id notified,
  )

-- The body of `decideLaunch`.
unfoldable pub decide_launch :
    (Text → Text) → ℕ → Text → Text → Text → Option Text → Body LaunchDecisionResult
decide_launch sha256 now owner job_id claim token db = do
  job ← get_job_row job_id owner db
  assert_runner_token sha256 job token
  throw_if (lacks_claim (db.claims job_id) claim)
      (store_error claim_taken "Launch decision requires the matching durable runner claim.")
  control ← row_to_control (db.controls job_id)
  if is_some control.launch_decision
      then ok (record { disposition = already_decided; control = control }, db)
      else (if is_settled job.state
            || not (is_initial_evidence_only (latest_of (db.results job_id)))
          then ok (record { disposition = precluded; control = control }, db)
          else (if is_some control.cancellation_requested_at_ms
              then suppress_launch now job_id job control true db
              else (if leb job.deadline_at_ms now
                  then suppress_launch now job_id job control false db
                  else ok (
                    record {
                      disposition = authorized_now;
                      control = record control {
                        launch_decision = some authorized;
                        decided_at_ms = some now;
                      };
                    },
                    set_decision job_id authorized now (db.controls job_id) db,
                  ))))

-- The row that `UPDATE job_claims … WHERE claim_id = ? AND heartbeat_counter = ?` changes.
beats : Option ClaimRow → Text → ℕ → Bool
beats none claim expected = false
beats (some row) claim expected = text_eq row.claim_id claim && row.heartbeat_counter == expected

abbrev beat : ℕ → ℕ → Option ClaimRow → Option ClaimRow
beat now counter none = none
beat now counter (some row) =
    some (record row { heartbeat_counter = counter; heartbeat_at_ms = some now })

-- The body of `heartbeat`; its result is the field `counter`.
unfoldable pub heartbeat : (Text → Text) → ℕ → Text → Text → Text → ℕ → Option Text → Body ℕ
unfolding beats
heartbeat sha256 now owner job_id claim expected token db = do
  job ← get_job_row job_id owner db
  assert_runner_token sha256 job token
  throw_if (not (beats (db.claims job_id) claim expected))
      (store_error revision_stale "Heartbeat lost the race to a concurrent writer.")
  ok (
    expected + 1,
    record db { claims = update db.claims job_id (beat now (expected + 1) (db.claims job_id)) },
  )
