-- ===== src/Store/Read.antt =====
-- src/job-store.ts: `inReadTransaction` and the reads, `getJob`, `listJobs`, `observeJob`,
-- `listNotices`, `listPendingNotices` and `listResults`.
use Prim.Native.String.{String}
use pi_watch.Base.{
  ℕ, Text, text_eq, Bool, false, ◌&&◌, Option, none, some, is_some, List, [], ◌∷◌, ◌++◌, map, keep,
  order_by, if◌then◌else◌,
}
use pi_watch.JobTypes.Errors.{Result, ok, err, ◌>>=◌, Thrown}
use pi_watch.JobTypes.Validate.{JsValue}
use pi_watch.Evidence.Defs.{ExecutionEvidence}
use pi_watch.Store.Tables.{
  JobRow, ClaimRow, ResultRow, NoticeRow, Db, find_job, get_job_row, latest_of,
}
use pi_watch.Store.Rows.{
  JobRecord, row_to_job, JobControlSnapshot, row_to_control, row_to_evidence, is_set,
}
use pi_watch.Store.Transaction.{wrap_sqlite_error, rethrow}
use pi_watch.Store.Launch.{latest_finalized, latest_revision, latest_evidence}
use pi_watch.Store.Publish.{ResultRecord}
use pi_watch.Store.Operations.{validate_owner_uuid}

-- What the engine throws in one read: at `BEGIN DEFERRED`, or at a later statement.
pub record ReadFaults : Type 0 where
  pub begin_error : Option String
  pub read_error : Option Thrown

-- `inReadTransaction`
unfoldable pub in_read_transaction : {A : Type 0} → ReadFaults → Result A → Result A
in_read_transaction faults value = elim faults.begin_error [
  | some message ↦ err (wrap_sqlite_error message)
  | none ↦ elim faults.read_error [
    | some e ↦ err (rethrow e)
    | none ↦ elim value [ err e ↦ err (rethrow e) | ok a ↦ ok a ]
  ]
]

-- `getJob`
unfoldable pub get_job : JsValue → Text → Db → Result JobRecord
get_job owner_uuid job_id db = do
  owner ← validate_owner_uuid owner_uuid
  row ← get_job_row job_id owner db
  ok (row_to_job row)

abbrev pub is_owned : Text → JobRow → Bool
is_owned owner j = text_eq j.owner_uuid owner

-- `listJobs`
unfoldable pub list_jobs : JsValue → Db → Result (List JobRecord)
list_jobs owner_uuid db = do
  owner ← validate_owner_uuid owner_uuid
  let rows = order_by (λ j. j.creation_ordinal) (keep (is_owned owner) db.jobs)
  ok (map row_to_job rows)

pub record JobObservation : Type 0 where
  pub job : JobRecord
  pub claim_id : Option Text
  pub heartbeat_counter : ℕ
  pub latest_revision : ℕ
  pub finalized : Bool
  pub evidence : ExecutionEvidence
  pub control : JobControlSnapshot

-- `claim?.claim_id ?? null`
abbrev pub current_claim : Option ClaimRow → Option Text
current_claim none = none
current_claim (some row) = some row.claim_id

-- `claim?.heartbeat_counter ?? 0`
abbrev pub current_counter : Option ClaimRow → ℕ
current_counter none = 0
current_counter (some row) = row.heartbeat_counter

-- The function that `observeJob` runs in its read transaction.
unfoldable pub observe : Text → Text → Db → Result JobObservation
observe owner job_id db = do
  job ← get_job_row job_id owner db
  let latest = latest_of (db.results job_id)
  control ← row_to_control (db.controls job_id)
  ok (record {
    job = row_to_job job;
    claim_id = current_claim (db.claims job_id);
    heartbeat_counter = current_counter (db.claims job_id);
    latest_revision = latest_revision latest;
    finalized = latest_finalized latest;
    evidence = latest_evidence latest;
    control = control;
  })

-- `observeJob`
unfoldable pub observe_job : ReadFaults → JsValue → Text → Db → Result JobObservation
unfolding in_read_transaction
observe_job faults owner_uuid job_id db = do
  owner ← validate_owner_uuid owner_uuid
  in_read_transaction faults (observe owner job_id db)

pub record NoticeRecord : Type 0 where
  pub job_id : Text
  pub owner_uuid : Text
  pub revision : ℕ
  pub pending : Bool
  pub acknowledged_at_ms : Option ℕ

abbrev pub notice_record : Text → Text → NoticeRow → NoticeRecord
notice_record owner job_id n = record {
  job_id = job_id;
  owner_uuid = owner;
  revision = n.revision;
  pending = is_set n.pending;
  acknowledged_at_ms = n.acknowledged_at_ms;
}

abbrev pub is_addressed : Text → NoticeRow → Bool
is_addressed owner n = text_eq n.owner_uuid owner

-- `listNotices`; the join leaves out rows without a job.
unfoldable pub list_notices : JsValue → Text → Db → Result (List NoticeRecord)
list_notices owner_uuid job_id db = do
  owner ← validate_owner_uuid owner_uuid
  let rows = if is_some (find_job job_id db.jobs) then db.notices job_id else []
  let ordered = order_by (λ n. n.revision) (keep (is_addressed owner) rows)
  ok (map (notice_record owner job_id) ordered)

abbrev pub is_pending : Text → NoticeRow → Bool
is_pending owner n = is_addressed owner n && is_set n.pending

-- The rows that `listPendingNotices` selects, job by job.
unfoldable pub pending_notices : Text → List JobRow → (Text → List NoticeRow) → List NoticeRecord
pending_notices owner [] notices = []
pending_notices owner (j ∷ jobs) notices =
    map (notice_record owner j.job_id)
      (order_by (λ n. n.revision) (keep (is_pending owner) (notices j.job_id)))
    ++ pending_notices owner jobs notices

-- `listPendingNotices`: `ORDER BY j.creation_ordinal, n.revision`.
unfoldable pub list_pending_notices : JsValue → Db → Result (List NoticeRecord)
list_pending_notices owner_uuid db = do
  owner ← validate_owner_uuid owner_uuid
  ok (pending_notices owner (order_by (λ j. j.creation_ordinal) db.jobs) db.notices)

abbrev pub result_record : Text → ResultRow → ResultRecord
result_record job_id row = record {
  job_id = job_id;
  revision = row.revision;
  evidence = row_to_evidence row;
  published_at_ms = row.published_at_ms;
}

abbrev pub owns : Text → Option JobRow → Bool
owns owner none = false
owns owner (some j) = is_owned owner j

-- `listResults`: `WHERE j.owner_uuid = ? AND r.job_id = ? ORDER BY r.revision`.
unfoldable pub list_results : JsValue → Text → Db → Result (List ResultRecord)
list_results owner_uuid job_id db = do
  owner ← validate_owner_uuid owner_uuid
  let rows = if owns owner (find_job job_id db.jobs) then db.results job_id else []
  ok (map (result_record job_id) (order_by (λ r. r.revision) rows))
