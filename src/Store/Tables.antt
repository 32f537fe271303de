-- ===== src/Store/Tables.antt =====
-- src/job-store.ts: the tables of `CREATE_SQL` and the queries on them. A table whose rows are
-- selected by `job_id` is a function of it: one row at most where `job_id` is the primary key, a
-- list of rows, newest first, where it is a part of the key. TEXT columns that hold the spelling
-- of an enumeration hold the enumeration; numbers are JavaScript's safe integers.
use pi_watch.Base.{
  ℕ, Text, text_eq, Bool, true, false, ◌&&◌, Option, none, some, List, [], ◌∷◌, map, ltb, ◌==◌,
  if◌then◌else◌, find, any, ℤ,
}
use pi_watch.JobTypes.Errors.{Result, ok, err, Thrown, store_error, foreign_error, not_found}
use pi_watch.Evidence.Defs.{LaunchPhase, CleanupState, CleanupTermObservation}

pub data RequestNamespace : Type 0 where
  tool_call explicit : RequestNamespace

abbrev pub namespace_eq : RequestNamespace → RequestNamespace → Bool
namespace_eq tool_call tool_call = true
namespace_eq explicit explicit = true
namespace_eq _ _ = false

pub data JobState : Type 0 where
  reserved claimed settled : JobState

pub data LaunchDecision : Type 0 where
  authorized suppressed_cancelled suppressed_deadline : LaunchDecision

-- The TEXT column `launch_decision`: one of the three spellings, or any other text.
pub data DecisionText : Type 0 where
  known : LaunchDecision → DecisionText
  other : Text → DecisionText

pub record JobRow : Type 0 where
  pub creation_ordinal : ℕ
  pub job_id : Text
  pub owner_uuid : Text
  pub owner_session_path : Text
  pub runner_token_hash : Text
  pub request_namespace : RequestNamespace
  pub request_key : Text
  pub command : Text
  pub cwd : Text
  pub deadline_ms : ℕ
  pub accepted_at_ms : ℕ
  pub deadline_at_ms : ℕ
  pub state : JobState

pub record ControlRow : Type 0 where
  pub cancellation_requested_at_ms : Option ℕ
  pub launch_decision : Option DecisionText
  pub decided_at_ms : Option ℕ

pub record ClaimRow : Type 0 where
  pub claim_id : Text
  pub claimed_at_ms : ℕ
  pub heartbeat_counter : ℕ
  pub heartbeat_at_ms : Option ℕ

-- Truth values are stored as 0 and 1.
pub record ResultRow : Type 0 where
  pub revision : ℕ
  pub launch : LaunchPhase
  pub shell_code : Option ℤ
  pub shell_signal : Option Text
  pub cleanup_state : CleanupState
  pub cleanup_term_observation : Option CleanupTermObservation
  pub cleanup_kill_intent : ℕ
  pub cancellation_intent : ℕ
  pub deadline_trigger : ℕ
  pub stdout_available : Option ℕ
  pub stdout_truncated : ℕ
  pub stdout_incomplete : ℕ
  pub stdout_open_at_cutover : ℕ
  pub stderr_available : Option ℕ
  pub stderr_truncated : ℕ
  pub stderr_incomplete : ℕ
  pub stderr_open_at_cutover : ℕ
  pub uncertain : ℕ
  pub finalized : ℕ
  pub published_at_ms : ℕ

pub record NoticeRow : Type 0 where
  pub revision : ℕ
  pub owner_uuid : Text
  pub pending : ℕ
  pub acknowledged_at_ms : Option ℕ

pub record WitnessRow : Type 0 where
  pub observed_claim_id : Text
  pub observed_counter : ℕ
  pub observed_revision : ℕ
  pub committed_at_ms : ℕ

-- `jobs` is in the order of `creation_ordinal`; `sequence` is the AUTOINCREMENT counter.
pub record Db : Type 0 where
  pub jobs : List JobRow
  pub sequence : ℕ
  pub controls : Text → Option ControlRow
  pub claims : Text → Option ClaimRow
  pub results : Text → List ResultRow
  pub notices : Text → List NoticeRow
  pub witnesses : Text → List WitnessRow

abbrev pub empty_db : Db
empty_db = record {
  jobs = [];
  sequence = 0;
  controls = λ _. none;
  claims = λ _. none;
  results = λ _. [];
  notices = λ _. [];
  witnesses = λ _. [];
}

abbrev pub update {ℓ} : {A : Type ℓ} → (Text → A) → Text → A → Text → A
update f k v j = if text_eq j k then v else f j

-- The statements of a transaction's body: they read and write the tables, or throw.
abbrev pub Body : Type 0 → Type 0
Body A = Db → Result (A × Db)

-- `WHERE job_id = ?`, and `WHERE job_id = ? AND owner_uuid = ?`.
unfoldable pub find_job : Text → List JobRow → Option JobRow
find_job job_id jobs = find (λ j. text_eq j.job_id job_id) jobs

unfoldable pub find_owned : Text → Text → List JobRow → Option JobRow
find_owned job_id owner jobs =
    find (λ j. text_eq j.job_id job_id && text_eq j.owner_uuid owner) jobs

-- `getJobRow` with an owner.
unfoldable pub get_job_row : Text → Text → Db → Result JobRow
get_job_row job_id owner db = elim (find_owned job_id owner db.jobs) [
  | none ↦ err (store_error not_found "Job not found for this owner.")
  | some row ↦ ok row
]

-- `latestResultRow`: `ORDER BY revision DESC LIMIT 1`.
unfoldable pub latest_of : List ResultRow → Option ResultRow
latest_of [] = none
latest_of (r ∷ rest) = elim (latest_of rest) [
  | none ↦ some r
  | some best ↦ if ltb r.revision best.revision then some best else some r
]

-- What the engine throws at a row whose key is there already.
abbrev pub unique_violation : Thrown
unique_violation = foreign_error "UNIQUE constraint failed"

abbrev pub set_state : JobState → Text → JobRow → JobRow
set_state state job_id j = if text_eq j.job_id job_id then record j { state = state } else j

-- `UPDATE jobs SET state = ? WHERE job_id = ?`
unfoldable pub update_job_state : JobState → Text → Db → Db
update_job_state state job_id db = record db { jobs = map (set_state state job_id) db.jobs }

unfoldable pub insert_result : Text → ResultRow → Db → Result Db
insert_result job_id row db =
    if any (λ (r : ResultRow). r.revision == row.revision) (db.results job_id)
    then err unique_violation
    else ok (record db { results = update db.results job_id (row ∷ db.results job_id) })

-- `INSERT INTO job_notices (job_id, revision, owner_uuid, pending) VALUES (?, ?, ?, 1)`
unfoldable pub insert_notice : Text → ℕ → Text → Db → Result Db
insert_notice job_id revision owner db =
    if any (λ (n : NoticeRow). n.revision == revision) (db.notices job_id)
    then err unique_violation
    else ok (record db {
      notices = update db.notices job_id (
          record { revision = revision; owner_uuid = owner; pending = 1; acknowledged_at_ms = none }
          ∷ db.notices job_id);
    })
