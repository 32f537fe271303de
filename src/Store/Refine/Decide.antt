-- ===== src/Store/Refine/Decide.antt =====
-- `decideLaunch` as steps of a job.
use pi_watch.Base.{
  ℕ, ◌+◌, Text, Bool, true, false, Option, none, some, ◌∷◌, if◌then◌else◌, ◌≡◌, ◌≢◌, ◌⊎◌, arith,
  inl, inr, ◌<◌, ◌≤◌,
}
use pi_watch.JobTypes.Errors.{ok}
use pi_watch.Evidence.Defs.{ExecutionEvidence}
use pi_watch.Evidence.Merge.{merge_evidence}
use pi_watch.Store.Tables.{
  settled, authorized, JobRow, ClaimRow, Db, get_job_row, update, update_job_state, latest_of,
  insert_result, insert_notice, suppressed_cancelled, suppressed_deadline,
}
use pi_watch.Store.Rows.{
  JobControlSnapshot, row_to_control, is_initial_evidence_only, evidence_to_row,
}
use pi_watch.Store.Launch.{
  LaunchDecisionResult, suppress_launch, latest_evidence, latest_revision, suppression_evidence,
  set_decision, decide_launch,
}
use pi_watch.Store.View.{
  HasDistinctIds, find_job-set_state, set_state-HasDistinctIds, get_job_row-ok,
}
use pi_watch.Store.Step.{JobStep, fresh_notice}
use pi_watch.Store.Refine.Defs.{Refines, Refines-of, Refines-refl}
use pi_watch.Store.Refine.Launch.{row_to_control-ok}

suppress_launch-parts :
    (now : ℕ) (job_id : Text) (j : JobRow) (control : JobControlSnapshot) (cancelled : Bool)
    (db : Db) {a : LaunchDecisionResult} {db' : Db}
    → suppress_launch now job_id j control cancelled db ≡ ok (a, db')
    → (merged : ExecutionEvidence) × (merge_evidence
          (latest_evidence (latest_of (db.results job_id)))
          (suppression_evidence cancelled)
          false
          true
        ≡ ok merged)
      × (db'
          ≡ update_job_state settled job_id
              (record (set_decision job_id
                (if cancelled then suppressed_cancelled else suppressed_deadline)
                now
                (db.controls job_id)
                db) {
                  results = update db.results job_id (
                      evidence_to_row
                        (latest_revision (latest_of (db.results job_id)) + 1)
                        merged
                        now
                      ∷ db.results job_id);
                  notices = update db.notices job_id (
                      fresh_notice
                        (latest_revision (latest_of (db.results job_id)) + 1)
                        j.owner_uuid
                      ∷ db.notices job_id);
                }))
unfolding suppress_launch insert_result insert_notice
suppress_launch-parts now job_id j control cancelled db h = ground arith

-- The guards that both decisions pass.
record Undecided (owner job_id : Text) (db : Db) (j : JobRow) (control : JobControlSnapshot)
    : Type 0 where
  got : get_job_row job_id owner db ≡ ok j
  snap : row_to_control (db.controls job_id) ≡ ok control
  undecided : control.launch_decision ≡ none
  running : j.state ≢ settled
  initial : is_initial_evidence_only (latest_of (db.results job_id)) ≡ true

decide_launch-parts :
    (sha256 : Text → Text) (now : ℕ) (owner job_id claim : Text) (token : Option Text) (db : Db)
    {a : LaunchDecisionResult} {db' : Db}
    → decide_launch sha256 now owner job_id claim token db ≡ ok (a, db')
    → (db' ≡ db)
      ⊎ ((j : JobRow) × (control : JobControlSnapshot) × (row : ClaimRow) × Undecided owner job_id
            db j control
          × (db.claims job_id ≡ some row)
          × (((control.cancellation_requested_at_ms ≡ none)
                × (now < j.deadline_at_ms)
                × (db' ≡ set_decision job_id authorized now (db.controls job_id) db))
              ⊎ ((control.cancellation_requested_at_ms ≢ none)
                  × (suppress_launch now job_id j control true db ≡ ok (a, db')))
              ⊎ ((control.cancellation_requested_at_ms ≡ none)
                  × (j.deadline_at_ms ≤ now)
                  × (suppress_launch now job_id j control false db ≡ ok (a, db')))))
unfolding decide_launch
decide_launch-parts sha256 now owner job_id claim token db h = ground arith

suppress_launch-Refines :
    (now : ℕ) (owner job_id : Text) (j : JobRow) (control : JobControlSnapshot) (row : ClaimRow)
    (cancelled : Bool) (db : Db) {a : LaunchDecisionResult} {db' : Db}
    → HasDistinctIds db.jobs
    → Undecided owner job_id db j control
    → db.claims job_id ≡ some row
    → (cancelled ≡ true → control.cancellation_requested_at_ms ≢ none)
    → (cancelled ≡ false → j.deadline_at_ms ≤ now)
    → suppress_launch now job_id j control cancelled db ≡ ok (a, db')
    → Refines db db'
unfolding update_job_state
suppress_launch-Refines now owner job_id j control row cancelled db {db' = db'} d u has was late h =
    let (merged, m, e) = suppress_launch-parts now job_id j control cancelled db h in
    let (found, own) = get_job_row-ok job_id owner db d u.got in
    let (c, present, req, dec) = row_to_control-ok (db.controls job_id) u.snap in
    Refines-of job_id db db' (rw (e, present) (set_state-HasDistinctIds job_id settled db.jobs d))
      (λ same.
        JobStep.suppress_step j c row now cancelled merged found present has (dec u.undecided)
          (ground (arith, was)) late u.running u.initial m
          (rw (e, present) (ground (arith, find_job-set_state job_id job_id settled db.jobs))))
      (λ id other. rw (e, present) (ground (arith, find_job-set_state id job_id settled db.jobs)))

pub decide_launch-Refines :
    (sha256 : Text → Text) (now : ℕ) (owner job_id claim : Text) (token : Option Text) (db : Db)
    {a : LaunchDecisionResult} {db' : Db}
    → HasDistinctIds db.jobs
    → decide_launch sha256 now owner job_id claim token db ≡ ok (a, db')
    → Refines db db'
decide_launch-Refines sha256 now owner job_id claim token db {db' = db'} d h =
    elim (decide_launch-parts sha256 now owner job_id claim token db h) [
      | inl same_db ↦ Refines-refl db db' same_db d
      | inr (j, control, row, u, has, which) ↦ elim which [
        | inl (no_cancel, early, e) ↦
            let (found, own) = get_job_row-ok job_id owner db d u.got in
            let (c, present, req, dec) = row_to_control-ok (db.controls job_id) u.snap in
            Refines-of job_id db db' (rw (e, present) d)
              (λ same.
                JobStep.authorize_step j c row now found present has (dec u.undecided)
                  (ground (arith, req)) early u.running u.initial (rw (e, present) (ground arith)))
              (λ id other. rw (e, present) (ground arith))
        | inr later ↦ elim later [
          | inl (cancel, s) ↦
              suppress_launch-Refines now owner job_id j control row true db d u has (λ _. cancel)
                (λ f. cc) s
          | inr (no_cancel, late, s) ↦
              suppress_launch-Refines now owner job_id j control row false db d u has (λ f. cc)
                (λ _. late) s
        ]
      ]
    ]
