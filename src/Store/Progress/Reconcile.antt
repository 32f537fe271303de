-- ===== src/Store/Progress/Reconcile.antt =====
-- src/job-store.ts: `observeJob` followed by `publishUncertainResult`, as a reconciler calls them.
use pi_watch.Base.{
  ℕ, ◌+◌, Text, text_eq_refl, Bool, true, false, Option, none, some, [], ◌∷◌, any, get_or, ◌==◌,
  ◌∙◌, ◌≡◌, refl, arith,
}
use pi_watch.JobTypes.Errors.{Thrown, store_error, revision_stale, ok, err}
use pi_watch.Evidence.Defs.{ExecutionEvidence, no_observation}
use pi_watch.Evidence.Merge.{merge_evidence}
use pi_watch.Evidence.Replay.{merge_evidence-no_observation}
use pi_watch.Store.Tables.{JobRow, ClaimRow, Db, get_job_row, latest_of, update}
use pi_watch.Store.Launch.{latest_evidence, latest_finalized, latest_revision, is_settled}
use pi_watch.Store.Publish.{
  ResultRecord, StaleWitness, fresh_activity, same_witness, publish_uncertain_result,
  append_revision, witness_row,
}
use pi_watch.Store.Read.{JobObservation, observe, current_claim, current_counter}
use pi_watch.Store.View.{get_job_row-ok}
use pi_watch.Store.Rows.{JobControlSnapshot, row_to_job, row_to_control, evidence_to_row}
use pi_watch.Store.Life.Revisions.{IsNumbered, cons-IsNumbered}
use pi_watch.Store.Life.Fresh.{with_revision, append_revision-ok}
use pi_watch.Store.Run.{IsSoundDb}

-- The witness that a reconciler makes of what it observed.
abbrev pub witness_of : JobObservation → StaleWitness
witness_of o = record {
  observed_claim_id = o.claim_id;
  observed_counter = o.heartbeat_counter;
  observed_revision = o.latest_revision;
}

-- An earlier reconciliation was recorded with this witness.
abbrev pub is_used : StaleWitness → Text → Db → Bool
is_used witness job_id db =
    any (same_witness (get_or witness.observed_claim_id []) witness.observed_counter)
      (db.witnesses job_id)

observe-parts :
    (owner job_id : Text) (db : Db) {o : JobObservation}
    → observe owner job_id db ≡ ok o
    → (j : JobRow) × (get_job_row job_id owner db ≡ ok j)
      × (o.claim_id ≡ current_claim (db.claims job_id))
      × (o.heartbeat_counter ≡ current_counter (db.claims job_id))
      × (o.latest_revision ≡ latest_revision (latest_of (db.results job_id)))
      × (o.finalized ≡ latest_finalized (latest_of (db.results job_id)))
      × (o.evidence ≡ latest_evidence (latest_of (db.results job_id)))
      × (row_to_control (db.controls job_id) ≡ ok o.control)
unfolding observe
observe-parts owner job_id db h = ground arith

-- What was just observed is not fresh activity.
current-fresh_activity :
    (claim : Option ClaimRow) (witness : StaleWitness)
    → witness.observed_claim_id ≡ current_claim claim
    → witness.observed_counter ≡ current_counter claim
    → fresh_activity claim witness ≡ false
current-fresh_activity none witness c n = ground arith
current-fresh_activity (some row) witness c n = ground (arith, text_eq_refl row.claim_id)

-- The tables with the row of `stale_witnesses`.
abbrev with_witness : ℕ → Text → StaleWitness → Db → Db
with_witness now job_id witness db = record db {
  witnesses = update db.witnesses job_id (witness_row now witness ∷ db.witnesses job_id);
}

uncertain-ok :
    (now : ℕ) (owner job_id : Text) (witness : StaleWitness) (db : Db) (j : JobRow)
    (merged : ExecutionEvidence) (published : ResultRecord) (db1 : Db)
    → get_job_row job_id owner db ≡ ok j
    → is_settled j.state ≡ false
    → latest_finalized (latest_of (db.results job_id)) ≡ false
    → witness.observed_revision ≡ latest_revision (latest_of (db.results job_id))
    → fresh_activity (db.claims job_id) witness ≡ false
    → is_used witness job_id db ≡ false
    → merge_evidence (latest_evidence (latest_of (db.results job_id))) no_observation true false
      ≡ ok merged
    → append_revision now job_id j merged db ≡ ok (published, db1)
    → publish_uncertain_result now owner job_id witness db
      ≡ ok (published, with_witness now job_id witness db1)
unfolding publish_uncertain_result
uncertain-ok now owner job_id witness db j merged published db1 got state final rev fresh free m a =
    ground (arith, got, state, final, rev, fresh, free, m, a)

abbrev pub outrun : Thrown
outrun = store_error revision_stale "Observation lost the race to a newer evidence revision."

abbrev pub already_produced : Thrown
already_produced = store_error revision_stale "This observation already produced a revision."

uncertain-outrun :
    (now : ℕ) (owner job_id : Text) (witness : StaleWitness) (db : Db) (j : JobRow)
    → get_job_row job_id owner db ≡ ok j
    → is_settled j.state ≡ false
    → latest_finalized (latest_of (db.results job_id)) ≡ false
    → (witness.observed_revision == latest_revision (latest_of (db.results job_id))) ≡ false
    → publish_uncertain_result now owner job_id witness db ≡ err outrun
unfolding publish_uncertain_result
uncertain-outrun now owner job_id witness db j got state final rev =
    rw (got, state, final, rev) refl

-- A used witness of the newest revision fails at the last test.
uncertain-used :
    (now : ℕ) (owner job_id : Text) (witness : StaleWitness) (db : Db) (j : JobRow)
    → get_job_row job_id owner db ≡ ok j
    → is_settled j.state ≡ false
    → latest_finalized (latest_of (db.results job_id)) ≡ false
    → witness.observed_revision ≡ latest_revision (latest_of (db.results job_id))
    → fresh_activity (db.claims job_id) witness ≡ false
    → is_used witness job_id db ≡ true
    → publish_uncertain_result now owner job_id witness db ≡ err already_produced
unfolding publish_uncertain_result
uncertain-used now owner job_id witness db j got state final rev fresh used =
    ground (arith, got, state, final, rev, fresh, used)

-- The tables after the publication.
abbrev uncertain_db : ℕ → Text → JobRow → ExecutionEvidence → StaleWitness → Db → Db
uncertain_db now job_id j merged witness db =
    with_witness now job_id witness (with_revision now job_id j merged db)

uncertain_db-latest :
    (now : ℕ) (job_id : Text) (j : JobRow) (merged : ExecutionEvidence) (witness : StaleWitness)
    (db : Db)
    → IsNumbered (db.results job_id)
    → latest_finalized (latest_of (db.results job_id)) ≡ false
    → merged.finalized ≡ false
    → let latest = latest_of ((uncertain_db now job_id j merged witness db).results job_id) in
      (latest_finalized latest ≡ false)
      × (latest_revision latest ≡ latest_revision (latest_of (db.results job_id)) + 1)
unfolding evidence_to_row
uncertain_db-latest now job_id j merged witness db numbered open_now still =
    let rows = db.results job_id in
    let row = evidence_to_row (latest_revision (latest_of rows) + 1) merged now in
    let newest = (cons-IsNumbered row rows numbered open_now refl).1 in
    rw (text_eq_refl job_id, newest) (ground (arith, still), refl)

uncertain_db-is_used :
    (now : ℕ) (job_id : Text) (j : JobRow) (merged : ExecutionEvidence)
    (witness again : StaleWitness) (db : Db)
    → witness.observed_claim_id ≡ again.observed_claim_id
    → witness.observed_counter ≡ again.observed_counter
    → is_used again job_id (uncertain_db now job_id j merged witness db) ≡ true
uncertain_db-is_used now job_id j merged witness again db claim counter =
    ground
      (arith, claim, counter, text_eq_refl job_id, text_eq_refl (get_or again.observed_claim_id []))

abbrev observation_of : Text → Db → JobRow → JobControlSnapshot → JobObservation
observation_of job_id db j control = record {
  job = row_to_job j;
  claim_id = current_claim (db.claims job_id);
  heartbeat_counter = current_counter (db.claims job_id);
  latest_revision = latest_revision (latest_of (db.results job_id));
  finalized = latest_finalized (latest_of (db.results job_id));
  evidence = latest_evidence (latest_of (db.results job_id));
  control = control;
}

observe-ok :
    (owner job_id : Text) (db : Db) (j : JobRow) (control : JobControlSnapshot)
    → get_job_row job_id owner db ≡ ok j
    → row_to_control (db.controls job_id) ≡ ok control
    → observe owner job_id db ≡ ok (observation_of job_id db j control)
unfolding observe
observe-ok owner job_id db j control got read = rw (got, read) refl

uncertain_db-get_job_row :
    (now : ℕ) (owner job_id : Text) (j : JobRow) (merged : ExecutionEvidence)
    (witness : StaleWitness) (db : Db)
    → get_job_row job_id owner (uncertain_db now job_id j merged witness db)
      ≡ get_job_row job_id owner db
unfolding get_job_row
uncertain_db-get_job_row now owner job_id j merged witness db = refl

-- On a sound store, what `observeJob` reads of a job without a final revision is a witness that
-- `publishUncertainResult` accepts, unless an earlier reconciliation was recorded with the same claim
-- and counter: the next revision has the next number and the observed facts, marked uncertain. From
-- then on the witness is used: publishing with it again fails, and so does publishing with what
-- `observeJob` reads next, although that names the newest revision.
pub publish_uncertain_result-observe :
    (now later : ℕ) (owner job_id : Text) (db : Db) {o : JobObservation}
    → IsSoundDb db
    → observe owner job_id db ≡ ok o
    → o.finalized ≡ false
    → is_used (witness_of o) job_id db ≡ false
    → (published : ResultRecord) × (db' : Db) × (next : JobObservation) × (publish_uncertain_result
          now owner job_id
          (witness_of o)
          db
        ≡ ok (published, db'))
      × (published.revision ≡ o.latest_revision + 1)
      × (published.evidence ≡ record (o.evidence) { uncertain = true; finalized = false })
      × (is_used (witness_of o) job_id db' ≡ true)
      × (publish_uncertain_result later owner job_id (witness_of o) db' ≡ err outrun)
      × (observe owner job_id db' ≡ ok next)
      × (next.latest_revision ≡ published.revision)
      × (publish_uncertain_result later owner job_id (witness_of next) db' ≡ err already_produced)
publish_uncertain_result-observe now later owner job_id db {o} s h open_now free =
    let (j, got, claim, counter, revision, final, evidence, control) =
      observe-parts owner job_id db h in
    let (found, own) = get_job_row-ok job_id owner db s.distinct got in
    let v = s.sound job_id in
    let w = witness_of o in
    let merged = record (o.evidence) { uncertain = true; finalized = false } in
    let db' = uncertain_db now job_id j merged w db in
    let next = observation_of job_id db' j o.control in
    let accepted =
      merge_evidence-no_observation (latest_evidence (latest_of (db.results job_id))) true false
        v.coherent in
    let appended = append_revision-ok now job_id j merged db v.numbered v.announced in
    let unsettled : is_settled j.state ≡ false = ground (arith, v.rules, found, open_now, final) in
    let open_rows : latest_finalized (latest_of (db.results job_id)) ≡ false =
      ground (arith, open_now, final) in
    let done =
      uncertain-ok now owner job_id w db j merged _ _ got unsettled open_rows revision
        (current-fresh_activity (db.claims job_id) w claim counter) free (rw evidence accepted)
        appended in
    let got' = uncertain_db-get_job_row now owner job_id j merged w db ∙ got in
    let (still, number) = uncertain_db-latest now job_id j merged w db v.numbered open_rows refl in
    (
      _,
      db',
      next,
      done,
      rw revision refl,
      refl,
      uncertain_db-is_used now job_id j merged w w db refl refl,
      uncertain-outrun later owner job_id w db' j got' unsettled still
          (rw (number, revision) (ground arith)),
      observe-ok owner job_id db' j o.control got' control,
      number,
      uncertain-used later owner job_id (witness_of next) db' j got' unsettled still refl
          (current-fresh_activity (db.claims job_id) (witness_of next) refl refl)
          (uncertain_db-is_used now job_id j merged w (witness_of next) db claim counter),
    )
