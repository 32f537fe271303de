-- ===== src/Store/Refine/Publish.antt =====
-- `reserve`, both publications and `acknowledgeNotice` as steps of a job.
use pi_watch.Base.{
  ℕ, ◌+◌, Text, text_eq→eq, text_eq_refl, true, false, not, Option, none, some, [], ◌∷◌, ◌++◌, map,
  ◌≡◌, ◌≢◌, ◌⊎◌, refl, arith, Bool-cases, inl, inr, get_or,
}
use pi_watch.JobTypes.Errors.{ok}
use pi_watch.Evidence.Defs.{ExecutionEvidence, EvidenceInput, no_observation}
use pi_watch.Evidence.Merge.{merge_evidence}
use pi_watch.Store.Tables.{
  settled, JobRow, ClaimRow, NoticeRow, Db, find_job, get_job_row, update, update_job_state,
  latest_of, insert_result, insert_notice,
}
use pi_watch.Store.Rows.{evidence_to_row}
use pi_watch.Store.Launch.{latest_finalized, latest_revision, latest_evidence}
use pi_watch.Store.Publish.{
  Reservation, ReservationResult, fresh_row, fresh_control, insert_reservation, reserve,
  ResultRecord, append_revision, settle_if, publish_result, StaleWitness, witness_row,
  publish_uncertain_result, acknowledge, acknowledge_notice,
}
use pi_watch.Store.View.{
  HasDistinctIds, find_job-set_state, set_state-HasDistinctIds, get_job_row-ok, find_job-append,
  append-HasDistinctIds,
}
use pi_watch.Store.Step.{JobStep, fresh_notice}
use pi_watch.Store.Refine.Defs.{Refines, Refines-of, Refines-refl}

-- The tables after a new revision with its notice.
abbrev with_revision : ℕ → Text → JobRow → ExecutionEvidence → Db → Db
with_revision now job_id j merged db = record db {
  results = update db.results job_id (
      evidence_to_row (latest_revision (latest_of (db.results job_id)) + 1) merged now
      ∷ db.results job_id);
  notices = update db.notices job_id (
      fresh_notice (latest_revision (latest_of (db.results job_id)) + 1) j.owner_uuid
      ∷ db.notices job_id);
}

publish_result-parts :
    (sha256 : Text → Text) (now : ℕ) (owner job_id claim : Text) (expected : Option ℕ)
    (input : EvidenceInput) (token : Option Text) (db : Db) {a : ResultRecord} {db' : Db}
    → publish_result sha256 now owner job_id claim expected input token db ≡ ok (a, db')
    → let final = get_or input.finalized false in
      (j : JobRow) × (row : ClaimRow) × (merged : ExecutionEvidence) × (get_job_row job_id owner db
        ≡ ok j)
      × (db.claims job_id ≡ some row)
      × (latest_finalized (latest_of (db.results job_id)) ≡ false)
      × (merge_evidence (latest_evidence (latest_of (db.results job_id))) input (not final) final
          ≡ ok merged)
      × (db' ≡ settle_if final job_id (with_revision now job_id j merged db))
unfolding publish_result append_revision insert_result insert_notice
publish_result-parts sha256 now owner job_id claim expected input token db h = ground arith

pub publish_result-Refines :
    (sha256 : Text → Text) (now : ℕ) (owner job_id claim : Text) (expected : Option ℕ)
    (input : EvidenceInput) (token : Option Text) (db : Db) {a : ResultRecord} {db' : Db}
    → HasDistinctIds db.jobs
    → publish_result sha256 now owner job_id claim expected input token db ≡ ok (a, db')
    → Refines db db'
unfolding update_job_state
publish_result-Refines sha256 now owner job_id claim expected input token db {db' = db'} d h =
    let (j, row, merged, got, has, unfinal, m, e) =
      publish_result-parts sha256 now owner job_id claim expected input token db h in
    let (found, own) = get_job_row-ok job_id owner db d got in
    let final = get_or input.finalized false in
    elim (Bool-cases final) [
      | inl f ↦
          Refines-of job_id db db' (rw (e, f) (set_state-HasDistinctIds job_id settled db.jobs d))
            (λ same.
              JobStep.publish_step j row now input final merged found has unfinal m
                (rw (e, f) (ground (arith, find_job-set_state job_id job_id settled db.jobs))))
            (λ id other. rw (e, f) (ground (arith, find_job-set_state id job_id settled db.jobs)))
      | inr f ↦
          Refines-of job_id db db' (rw (e, f) d)
            (λ same.
              JobStep.publish_step j row now input final merged found has unfinal m
                (rw (e, f) (ground arith)))
            (λ id other. rw (e, f) (ground arith))
    ]

publish_uncertain_result-parts :
    (now : ℕ) (owner job_id : Text) (witness : StaleWitness) (db : Db) {a : ResultRecord} {db' : Db}
    → publish_uncertain_result now owner job_id witness db ≡ ok (a, db')
    → (j : JobRow) × (merged : ExecutionEvidence) × (get_job_row job_id owner db ≡ ok j)
      × (j.state ≢ settled)
      × (latest_finalized (latest_of (db.results job_id)) ≡ false)
      × (merge_evidence (latest_evidence (latest_of (db.results job_id))) no_observation true false
          ≡ ok merged)
      × (db' ≡ record (with_revision now job_id j merged db) {
        witnesses = update db.witnesses job_id (witness_row now witness ∷ db.witnesses job_id);
      })
unfolding publish_uncertain_result append_revision insert_result insert_notice
publish_uncertain_result-parts now owner job_id witness db h = ground arith

pub publish_uncertain_result-Refines :
    (now : ℕ) (owner job_id : Text) (witness : StaleWitness) (db : Db) {a : ResultRecord} {db' : Db}
    → HasDistinctIds db.jobs
    → publish_uncertain_result now owner job_id witness db ≡ ok (a, db')
    → Refines db db'
publish_uncertain_result-Refines now owner job_id witness db {db' = db'} d h =
    let (j, merged, got, state, unfinal, m, e) =
      publish_uncertain_result-parts now owner job_id witness db h in
    let (found, own) = get_job_row-ok job_id owner db d got in
    Refines-of job_id db db' (rw e d)
      (λ same.
        JobStep.uncertain_step j now no_observation merged (witness_row now witness) found state
          unfinal m (rw e (ground arith)))
      (λ id other. rw e (ground arith))

acknowledge_keys :
    (now revision : ℕ) (owner : Text) (n : NoticeRow)
    → ((acknowledge now revision owner n).revision ≡ n.revision)
      × ((acknowledge now revision owner n).owner_uuid ≡ n.owner_uuid)
acknowledge_keys now revision owner n = ground arith

acknowledge_notice-parts :
    (now : ℕ) (owner job_id : Text) (revision : ℕ) (db : Db) {a : Unit {0}} {db' : Db}
    → acknowledge_notice now owner job_id revision db ≡ ok (a, db')
    → db' ≡ record db {
      notices = update db.notices job_id (map (acknowledge now revision owner) (db.notices job_id));
    }
unfolding acknowledge_notice
acknowledge_notice-parts now owner job_id revision db h = ground arith

pub acknowledge_notice-Refines :
    (now : ℕ) (owner job_id : Text) (revision : ℕ) (db : Db) {a : Unit {0}} {db' : Db}
    → HasDistinctIds db.jobs
    → acknowledge_notice now owner job_id revision db ≡ ok (a, db')
    → Refines db db'
acknowledge_notice-Refines now owner job_id revision db {db' = db'} d h =
    let e = acknowledge_notice-parts now owner job_id revision db h in
    Refines-of job_id db db' (rw e d)
      (λ same.
        JobStep.acknowledge_step (acknowledge now revision owner)
          (acknowledge_keys now revision owner) (rw e (ground arith)))
      (λ id other. rw e (ground arith))

reserve-parts :
    (sha256 : Text → Text) (now : ℕ) (token : Text) (input : Reservation) (db : Db)
    {a : ReservationResult} {db' : Db}
    → reserve sha256 now token input db ≡ ok (a, db')
    → (db' ≡ db)
      ⊎ (let row = fresh_row sha256 now token input (db.sequence + 1) in
          (find_job input.candidate_job_id db.jobs ≡ none)
          × (db.controls input.candidate_job_id ≡ none)
          × (db' ≡ record db {
            jobs = db.jobs ++ (row ∷ []);
            sequence = db.sequence + 1;
            controls = update db.controls input.candidate_job_id (some fresh_control);
          }))
unfolding reserve insert_reservation
reserve-parts sha256 now token input db h = ground arith

pub reserve-Refines :
    (sha256 : Text → Text) (now : ℕ) (token : Text) (input : Reservation) (db : Db)
    {a : ReservationResult} {db' : Db}
    → HasDistinctIds db.jobs
    → reserve sha256 now token input db ≡ ok (a, db')
    → Refines db db'
reserve-Refines sha256 now token input db {db' = db'} d h =
    let row = fresh_row sha256 now token input (db.sequence + 1) in
    let id = input.candidate_job_id in
    elim (reserve-parts sha256 now token input db h) [
      | inl same_db ↦ Refines-refl db db' same_db d
      | inr (absent, free, e) ↦
          Refines-of id db db' (rw e (append-HasDistinctIds db.jobs row d absent))
            (λ same.
              JobStep.reserve_step row absent free refl refl
                (rw e (ground (arith, find_job-append id db.jobs row))))
            (λ other_id other. rw e (
              ground (
                arith,
                find_job-append other_id db.jobs row,
                text_eq→eq id other_id,
                text_eq_refl id,
              )))
    ]
