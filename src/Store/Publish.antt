-- ===== src/Store/Publish.antt =====
-- src/job-store.ts: `reserve`, `publishResult`, `publishUncertainResult` and `acknowledgeNotice`,
-- as bodies of transactions over validated arguments.
use pi_watch.Base.{
  ℕ, ◌+◌, Text, text_eq, Bool, true, false, not, ◌&&◌, ◌||◌, Option, none, some, is_some, List, [],
  ◌∷◌, ◌++◌, ◌==◌, if◌then◌else◌, any, find, get_or, map,
}
use pi_watch.JobTypes.Errors.{
  Result, ok, err, ◌>>=◌, ◌>>◌, throw_if, store_error, claim_taken, revision_stale,
  request_key_conflict, not_found,
}
use pi_watch.Evidence.Defs.{ExecutionEvidence, EvidenceInput, no_observation}
use pi_watch.Evidence.Merge.{merge_evidence}
use pi_watch.Store.Tables.{
  RequestNamespace, namespace_eq, reserved, settled, JobRow, ControlRow, ClaimRow, NoticeRow,
  WitnessRow, Db, Body, update, find_job, get_job_row, latest_of, unique_violation,
  update_job_state, insert_result, insert_notice,
}
use pi_watch.Store.Rows.{JobRecord, row_to_job, evidence_to_row}
use pi_watch.Store.Launch.{
  assert_runner_token, lacks_claim, latest_finalized, latest_revision, latest_evidence, is_settled,
}

-- The validated fields of a `ReservationInput`, with the candidate identity.
pub record Reservation : Type 0 where
  pub owner_uuid : Text
  pub session_path : Text
  pub namespace : RequestNamespace
  pub request_key : Text
  pub command : Text
  pub cwd : Text
  pub deadline_ms : ℕ
  pub candidate_job_id : Text

pub record ReservationResult : Type 0 where
  pub created : Bool
  pub job : JobRecord
  pub runner_token : Option Text

-- `WHERE owner_uuid = ? AND request_namespace = ? AND request_key = ?`
unfoldable pub find_request : Reservation → List JobRow → Option JobRow
find_request input jobs =
    find
      (λ j.
        text_eq j.owner_uuid input.owner_uuid
        && (namespace_eq j.request_namespace input.namespace
            && text_eq j.request_key input.request_key))
      jobs

-- `existing` was reserved with the same command, directory and duration.
abbrev pub same_inputs : JobRow → Reservation → Bool
same_inputs existing input =
    text_eq existing.command input.command
    && (text_eq existing.cwd input.cwd && existing.deadline_ms == input.deadline_ms)

abbrev pub fresh_row : (Text → Text) → ℕ → Text → Reservation → ℕ → JobRow
fresh_row sha256 now token input ordinal = record {
  creation_ordinal = ordinal;
  job_id = input.candidate_job_id;
  owner_uuid = input.owner_uuid;
  owner_session_path = input.session_path;
  runner_token_hash = sha256 token;
  request_namespace = input.namespace;
  request_key = input.request_key;
  command = input.command;
  cwd = input.cwd;
  deadline_ms = input.deadline_ms;
  accepted_at_ms = now;
  deadline_at_ms = now + input.deadline_ms;
  state = reserved;
}

abbrev pub fresh_control : ControlRow
fresh_control = record {
  cancellation_requested_at_ms = none;
  launch_decision = none;
  decided_at_ms = none;
}

-- The two INSERTs of a new reservation; `job_id` is unique in both tables.
unfoldable pub insert_reservation : JobRow → Db → Result Db
insert_reservation row db =
    if is_some (find_job row.job_id db.jobs) || is_some (db.controls row.job_id)
    then err unique_violation
    else ok (record db {
      jobs = db.jobs ++ (row ∷ []);
      sequence = row.creation_ordinal;
      controls = update db.controls row.job_id (some fresh_control);
    })

-- `getJobRow` with no owner.
unfoldable pub get_row : Text → Db → Result JobRow
get_row job_id db = elim (find_job job_id db.jobs) [
  | none ↦ err (store_error not_found "Job not found for this owner.")
  | some row ↦ ok row
]

-- The body of `reserve`; `token` is what `randomBytes(32).toString('base64url')` returns.
unfoldable pub reserve : (Text → Text) → ℕ → Text → Reservation → Body ReservationResult
reserve sha256 now token input db = elim (find_request input db.jobs) [
  | some existing ↦
      if same_inputs existing input
      then ok (record { created = false; job = row_to_job existing; runner_token = none }, db)
      else err (
          store_error request_key_conflict
            "An existing reservation with this key has different inputs.")
  | none ↦ do
    let row = fresh_row sha256 now token input (db.sequence + 1)
    inserted ← insert_reservation row db
    stored ← get_row input.candidate_job_id inserted
    ok (record { created = true; job = row_to_job stored; runner_token = some token }, inserted)
]

pub record ResultRecord : Type 0 where
  pub job_id : Text
  pub revision : ℕ
  pub evidence : ExecutionEvidence
  pub published_at_ms : ℕ

-- The revision after the latest, with its notice: what both publications write.
unfoldable pub append_revision : ℕ → Text → JobRow → ExecutionEvidence → Body ResultRecord
append_revision now job_id job merged db = do
  let revision = latest_revision (latest_of (db.results job_id)) + 1
  published ← insert_result job_id (evidence_to_row revision merged now) db
  notified ← insert_notice job_id revision job.owner_uuid published
  ok (
    record { job_id = job_id; revision = revision; evidence = merged; published_at_ms = now },
    notified,
  )

abbrev pub settle_if : Bool → Text → Db → Db
settle_if true job_id db = update_job_state settled job_id db
settle_if false job_id db = db

-- `expectedRevision === null ? latestRevision !== 0 : expectedRevision !== latestRevision`
abbrev pub lost_race : Option ℕ → ℕ → Bool
lost_race none revision = not (revision == 0)
lost_race (some expected) revision = not (expected == revision)

-- The body of `publishResult`.
unfoldable pub publish_result :
    (Text → Text)
    → ℕ
    → Text
    → Text
    → Text
    → Option ℕ
    → EvidenceInput
    → Option Text
    → Body ResultRecord
publish_result sha256 now owner job_id claim expected input token db = do
  job ← get_job_row job_id owner db
  assert_runner_token sha256 job token
  throw_if (lacks_claim (db.claims job_id) claim)
      (store_error claim_taken "Result publication requires the matching durable runner claim.")
  let latest = latest_of (db.results job_id)
  throw_if (latest_finalized latest)
      (store_error revision_stale "A known shell outcome is already preserved.")
  throw_if (lost_race expected (latest_revision latest))
      (store_error revision_stale "Result revision lost the race.")
  let finalized = get_or input.finalized false
  merged ← merge_evidence (latest_evidence latest) input (not finalized) finalized
  published ← append_revision now job_id job merged db
  ok (published.0, settle_if finalized job_id published.1)

-- `StaleWitnessInput`
pub record StaleWitness : Type 0 where
  pub observed_claim_id : Option Text
  pub observed_counter : ℕ
  pub observed_revision : ℕ

-- `claim?.claim_id ?? null` and `claim?.heartbeat_counter ?? 0` are what the witness saw.
abbrev pub fresh_activity : Option ClaimRow → StaleWitness → Bool
fresh_activity none witness =
    is_some witness.observed_claim_id || not (witness.observed_counter == 0)
fresh_activity (some row) witness = elim witness.observed_claim_id [
  | none ↦ true
  | some id ↦
      not (text_eq row.claim_id id) || not (witness.observed_counter == row.heartbeat_counter)
]

abbrev pub same_witness : Text → ℕ → WitnessRow → Bool
same_witness claim counter row =
    text_eq row.observed_claim_id claim && row.observed_counter == counter

-- The row of `stale_witnesses`; an unclaimed observation is keyed with an empty claim id.
abbrev pub witness_row : ℕ → StaleWitness → WitnessRow
witness_row now witness = record {
  observed_claim_id = get_or witness.observed_claim_id [];
  observed_counter = witness.observed_counter;
  observed_revision = witness.observed_revision;
  committed_at_ms = now;
}

-- The body of `publishUncertainResult`.
unfoldable pub publish_uncertain_result : ℕ → Text → Text → StaleWitness → Body ResultRecord
publish_uncertain_result now owner job_id witness db = do
  job ← get_job_row job_id owner db
  throw_if (is_settled job.state)
      (store_error revision_stale "A known shell outcome is already recorded.")
  let latest = latest_of (db.results job_id)
  throw_if (latest_finalized latest)
      (store_error revision_stale "A known shell outcome is already preserved.")
  throw_if (not (witness.observed_revision == latest_revision latest))
      (store_error revision_stale "Observation lost the race to a newer evidence revision.")
  throw_if (fresh_activity (db.claims job_id) witness)
      (store_error revision_stale "Observation lost the race to fresh activity.")
  let witness_claim_id = get_or witness.observed_claim_id []
  throw_if (any (same_witness witness_claim_id witness.observed_counter) (db.witnesses job_id))
      (store_error revision_stale "This observation already produced a revision.")
  merged ← merge_evidence (latest_evidence latest) no_observation true false
  published ← append_revision now job_id job merged db
  ok (
    published.0,
    record (published.1) {
      witnesses =
          update (published.1).witnesses job_id
            (witness_row now witness ∷ (published.1).witnesses job_id);
    },
  )

abbrev pub is_notice : ℕ → Text → NoticeRow → Bool
is_notice revision owner n = n.revision == revision && text_eq n.owner_uuid owner

abbrev pub acknowledge : ℕ → ℕ → Text → NoticeRow → NoticeRow
acknowledge now revision owner n =
    if is_notice revision owner n
    then record n { pending = 0; acknowledged_at_ms = some now }
    else n

-- The body of `acknowledgeNotice`: at most one row has this key.
unfoldable pub acknowledge_notice : ℕ → Text → Text → ℕ → Body (Unit {0})
acknowledge_notice now owner job_id revision db =
    if any (is_notice revision owner) (db.notices job_id)
    then ok (
      tt,
      record db {
        notices =
            update db.notices job_id (map (acknowledge now revision owner) (db.notices job_id));
      },
    )
    else err (store_error not_found "Notice not found for this owner.")
