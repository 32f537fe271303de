-- ===== src/Store/Authority/Fence.antt =====
-- src/job-store.ts: a caller that does not own the job.
use pi_watch.Base.{ℕ, Text, Option, none, List, [], ◌∷◌, false, ◌≡◌, refl, arith}
use pi_watch.JobTypes.Errors.{Thrown, store_error, not_found, ok, err}
use pi_watch.Evidence.Defs.{EvidenceInput}
use pi_watch.Store.Tables.{JobRow, Db, find_job, find_owned, get_job_row}
use pi_watch.Store.Launch.{request_cancellation, claim_runner, decide_launch, heartbeat}
use pi_watch.Store.Publish.{StaleWitness, publish_result, publish_uncertain_result}
use pi_watch.JobTypes.Validate.{string}
use pi_watch.Store.Operations.{validate_owner_uuid}
use pi_watch.Store.Read.{get_job, list_results, owns, observe}

abbrev pub no_job : Thrown
no_job = store_error not_found "Job not found for this owner."

get_job_row-none :
    (owner job_id : Text) (db : Db)
    → find_owned job_id owner db.jobs ≡ none
    → get_job_row job_id owner db ≡ err no_job
unfolding get_job_row
get_job_row-none owner job_id db h = ground arith

-- Where no job has this id and this owner, the job of this id, if there is one, has another owner.
pub find_owned-none :
    (owner job_id : Text) (jobs : List JobRow)
    → find_owned job_id owner jobs ≡ none
    → (owns owner (find_job job_id jobs)) ≡ false
unfolding find_owned find_job
find_owned-none owner job_id [] h = ground arith
find_owned-none owner job_id (j ∷ jobs) h = ground (arith, h, find_owned-none owner job_id jobs)

reads_fenced :
    (owner job_id : Text) (db : Db)
    → validate_owner_uuid (string owner) ≡ ok owner
    → find_owned job_id owner db.jobs ≡ none
    → (get_job (string owner) job_id db ≡ err no_job)
      × (list_results (string owner) job_id db ≡ ok [])
unfolding get_job list_results
reads_fenced owner job_id db valid h = (
  rw (valid, get_job_row-none owner job_id db h) refl,
  rw (valid, find_owned-none owner job_id db.jobs h) refl,
)

-- For an owner, a valid UUID, without a job of this id cancellation, claim, decision, heartbeat, both
-- publications, the observation and `getJob` all throw NOT_FOUND, and `listResults` is empty,
-- whatever claim, token, counter, revision, evidence or witness the caller presents.
pub owner_fence :
    (sha256 : Text → Text) (now : ℕ) (owner job_id claim : Text) (token : Option Text)
    (expected : ℕ) (revision : Option ℕ) (input : EvidenceInput) (witness : StaleWitness) (db : Db)
    → validate_owner_uuid (string owner) ≡ ok owner
    → find_owned job_id owner db.jobs ≡ none
    → (request_cancellation now owner job_id db ≡ err no_job)
      × (claim_runner sha256 now owner job_id claim token db ≡ err no_job)
      × (decide_launch sha256 now owner job_id claim token db ≡ err no_job)
      × (heartbeat sha256 now owner job_id claim expected token db ≡ err no_job)
      × (publish_result sha256 now owner job_id claim revision input token db ≡ err no_job)
      × (publish_uncertain_result now owner job_id witness db ≡ err no_job)
      × (observe owner job_id db ≡ err no_job)
      × (get_job (string owner) job_id db ≡ err no_job)
      × (list_results (string owner) job_id db ≡ ok [])
unfolding request_cancellation claim_runner decide_launch heartbeat publish_result
    publish_uncertain_result observe
owner_fence sha256 now owner job_id claim token expected revision input witness db valid h =
    let missing = get_job_row-none owner job_id db h in
    let (got, results) = reads_fenced owner job_id db valid h in
    rw missing (refl, refl, refl, refl, refl, refl, refl, got, results)
