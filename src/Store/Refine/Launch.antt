-- ===== src/Store/Refine/Launch.antt =====
-- `claimRunner`, `requestCancellation`, `heartbeat` and `decideLaunch` as steps of a job.
use pi_watch.Base.{ℕ, ◌+◌, Text, false, Option, none, some, ◌≡◌, ◌≢◌, ◌⊎◌, refl, arith, inl, inr}
use pi_watch.JobTypes.Errors.{ok}
use pi_watch.Store.Tables.{
  reserved, claimed, settled, JobRow, ControlRow, ClaimRow, Db, get_job_row, update,
  update_job_state, latest_of,
}
use pi_watch.Store.Rows.{JobControlSnapshot, row_to_control}
use pi_watch.Store.Launch.{
  claim_runner, RunnerClaim, CancellationResult, request_cancellation, set_cancellation,
  latest_finalized, heartbeat,
}
use pi_watch.Store.View.{
  HasDistinctIds, find_job-set_state, set_state-HasDistinctIds, get_job_row-ok,
}
use pi_watch.Store.Step.{JobStep}
use pi_watch.Store.Refine.Defs.{Refines, Refines-of, Refines-refl}

fresh_claim : Text → ℕ → ClaimRow
fresh_claim claim now = record {
  claim_id = claim;
  claimed_at_ms = now;
  heartbeat_counter = 0;
  heartbeat_at_ms = none;
}

claim_runner-parts :
    (sha256 : Text → Text) (now : ℕ) (owner job_id claim : Text) (token : Option Text) (db : Db)
    {a : RunnerClaim} {db' : Db}
    → claim_runner sha256 now owner job_id claim token db ≡ ok (a, db')
    → (j : JobRow) × (get_job_row job_id owner db ≡ ok j)
      × (db.claims job_id ≡ none)
      × (j.state ≡ reserved)
      × (db'
          ≡ update_job_state claimed job_id
              (record db { claims = update db.claims job_id (some (fresh_claim claim now)) }))
unfolding claim_runner fresh_claim
claim_runner-parts sha256 now owner job_id claim token db h = ground arith

pub claim_runner-Refines :
    (sha256 : Text → Text) (now : ℕ) (owner job_id claim : Text) (token : Option Text) (db : Db)
    {a : RunnerClaim} {db' : Db}
    → HasDistinctIds db.jobs
    → claim_runner sha256 now owner job_id claim token db ≡ ok (a, db')
    → Refines db db'
unfolding update_job_state fresh_claim
claim_runner-Refines sha256 now owner job_id claim token db {db' = db'} d h =
    let (j, got, free, state, e) = claim_runner-parts sha256 now owner job_id claim token db h in
    let (found, own) = get_job_row-ok job_id owner db d got in
    Refines-of job_id db db' (rw e (set_state-HasDistinctIds job_id claimed db.jobs d))
      (λ same.
        JobStep.claim_step j (fresh_claim claim now) (ground arith) state (ground arith) refl
          (rw e (ground (arith, find_job-set_state job_id job_id claimed db.jobs))))
      (λ id other. rw e (ground (arith, find_job-set_state id job_id claimed db.jobs)))

request_cancellation-parts :
    (now : ℕ) (owner job_id : Text) (db : Db) {a : CancellationResult} {db' : Db}
    → request_cancellation now owner job_id db ≡ ok (a, db')
    → (db' ≡ db)
      ⊎ ((j : JobRow) × (control : JobControlSnapshot) × (get_job_row job_id owner db ≡ ok j)
          × (row_to_control (db.controls job_id) ≡ ok control)
          × (control.cancellation_requested_at_ms ≡ none)
          × (j.state ≢ settled)
          × (latest_finalized (latest_of (db.results job_id)) ≡ false)
          × (db' ≡ set_cancellation job_id now (db.controls job_id) db))
unfolding request_cancellation
request_cancellation-parts now owner job_id db h = ground arith

pub row_to_control-ok :
    (row : Option ControlRow) {control : JobControlSnapshot}
    → row_to_control row ≡ ok control
    → (c : ControlRow) × (row ≡ some c)
      × (control.cancellation_requested_at_ms ≡ c.cancellation_requested_at_ms)
      × (control.launch_decision ≡ none → c.launch_decision ≡ none)
unfolding row_to_control
row_to_control-ok row h = ground arith

pub request_cancellation-Refines :
    (now : ℕ) (owner job_id : Text) (db : Db) {a : CancellationResult} {db' : Db}
    → HasDistinctIds db.jobs
    → request_cancellation now owner job_id db ≡ ok (a, db')
    → Refines db db'
request_cancellation-Refines now owner job_id db {db' = db'} d h =
    elim (request_cancellation-parts now owner job_id db h) [
      | inl same_db ↦ Refines-refl db db' same_db d
      | inr (j, control, got, snap, open_cancel, state, unfinal, e) ↦
          let (found, own) = get_job_row-ok job_id owner db d got in
          let (c, has, req, dec) = row_to_control-ok (db.controls job_id) snap in
          Refines-of job_id db db' (rw (e, has) d)
            (λ same.
              JobStep.cancel_step j c now (ground arith) (ground arith) state (ground arith)
                (ground arith) (rw (e, has) (ground arith)))
            (λ id other. rw (e, has) (ground arith))
    ]

heartbeat-parts :
    (sha256 : Text → Text) (now : ℕ) (owner job_id claim : Text) (expected : ℕ)
    (token : Option Text) (db : Db) {a : ℕ} {db' : Db}
    → heartbeat sha256 now owner job_id claim expected token db ≡ ok (a, db')
    → (row : ClaimRow) × (db.claims job_id ≡ some row)
      × (row.heartbeat_counter ≡ expected)
      × (db' ≡ record db {
        claims =
            update db.claims job_id
              (some (record row { heartbeat_counter = expected + 1; heartbeat_at_ms = some now }));
      })
unfolding heartbeat
heartbeat-parts sha256 now owner job_id claim expected token db h = ground arith

pub heartbeat-Refines :
    (sha256 : Text → Text) (now : ℕ) (owner job_id claim : Text) (expected : ℕ)
    (token : Option Text) (db : Db) {a : ℕ} {db' : Db}
    → HasDistinctIds db.jobs
    → heartbeat sha256 now owner job_id claim expected token db ≡ ok (a, db')
    → Refines db db'
heartbeat-Refines sha256 now owner job_id claim expected token db {db' = db'} d h =
    let (row, has, same_count, e) =
      heartbeat-parts sha256 now owner job_id claim expected token db h in
    Refines-of job_id db db' (rw e d) (λ same. JobStep.beat_step row now has (rw e (ground arith)))
      (λ id other. rw e (ground arith))
