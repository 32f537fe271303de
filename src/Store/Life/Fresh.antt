-- ===== src/Store/Life/Fresh.antt =====
-- src/job-store.ts: the INSERTs of the next revision and its notice, on a sound job.
use pi_watch.Base.{ℕ, ◌+◌, ◌<◌, Text, false, List, [], ◌∷◌, length, any, ◌==◌, ◌≡◌, refl, arith}
use pi_watch.JobTypes.Errors.{ok}
use pi_watch.Evidence.Defs.{ExecutionEvidence}
use pi_watch.Store.Tables.{
  JobRow, ResultRow, NoticeRow, Db, update, latest_of, insert_result, insert_notice,
}
use pi_watch.Store.Rows.{evidence_to_row}
use pi_watch.Store.Launch.{latest_revision}
use pi_watch.Store.Publish.{append_revision}
use pi_watch.Store.Step.{fresh_notice}
use pi_watch.Store.Life.Revisions.{IsNumbered, latest_of-head}
use pi_watch.Store.Life.Sound.{IsAnnounced}

pub result-fresh :
    (rows : List ResultRow) (n : ℕ)
    → IsNumbered rows
    → length rows < n
    → any (λ (r : ResultRow). r.revision == n) rows ≡ false
result-fresh [] n s h = refl
result-fresh (r ∷ rest) n s h = ground (arith, result-fresh rest n s.2, s.0)

pub notice-fresh :
    (rows : List ResultRow) (notices : List NoticeRow) (n : ℕ)
    → IsNumbered rows
    → IsAnnounced rows notices
    → length rows < n
    → any (λ (m : NoticeRow). m.revision == n) notices ≡ false
notice-fresh [] [] n s a h = refl
notice-fresh [] (m ∷ notices) n s a h = absurd a
notice-fresh (r ∷ rest) [] n s a h = absurd a
notice-fresh (r ∷ rest) (m ∷ notices) n s a h =
    ground (arith, notice-fresh rest notices n s.2 a.1, s.0, a.0)

-- The tables with the next revision and its notice.
abbrev pub with_revision : ℕ → Text → JobRow → ExecutionEvidence → Db → Db
with_revision now job_id j merged db =
    let revision = latest_revision (latest_of (db.results job_id)) + 1 in
    record db {
      results = update db.results job_id (evidence_to_row revision merged now ∷ db.results job_id);
      notices = update db.notices job_id (fresh_notice revision j.owner_uuid ∷ db.notices job_id);
    }

-- On the rows of a sound job neither INSERT meets a row with its key.
pub append_revision-ok :
    (now : ℕ) (job_id : Text) (j : JobRow) (merged : ExecutionEvidence) (db : Db)
    → IsNumbered (db.results job_id)
    → IsAnnounced (db.results job_id) (db.notices job_id)
    → append_revision now job_id j merged db
      ≡ ok (
        record {
          job_id = job_id;
          revision = latest_revision (latest_of (db.results job_id)) + 1;
          evidence = merged;
          published_at_ms = now;
        },
        with_revision now job_id j merged db,
      )
unfolding append_revision insert_result insert_notice evidence_to_row
append_revision-ok now job_id j merged db n a =
    let revision = latest_revision (latest_of (db.results job_id)) + 1 in
    let (same, count) = latest_of-head (db.results job_id) n in
    let free = result-fresh (db.results job_id) revision n (omega arith) in
    let unannounced =
      notice-fresh (db.results job_id) (db.notices job_id) revision n a (omega arith) in
    simp (free, unannounced)
