-- ===== src/Store/View.antt =====
-- One job of the store: its rows of every table, and how the queries and updates of the table of
-- jobs look from one job.
use pi_watch.Base.{
  Text, text_eq, text_eq_refl, text_eq→eq, Option, none, some, List, [], ◌∷◌, ◌++◌, map,
  if◌then◌else◌, ◌≡◌, refl, arith,
}
use pi_watch.JobTypes.Errors.{ok}
use pi_watch.Store.Tables.{
  JobState, JobRow, ControlRow, ClaimRow, ResultRow, NoticeRow, WitnessRow, Db, find_job,
  find_owned, get_job_row, set_state,
}

pub record JobView : Type 0 where
  pub job : Option JobRow
  pub control : Option ControlRow
  pub claim : Option ClaimRow
  pub results : List ResultRow
  pub notices : List NoticeRow
  pub witnesses : List WitnessRow

abbrev pub view : Text → Db → JobView
view id db = record {
  job = find_job id db.jobs;
  control = db.controls id;
  claim = db.claims id;
  results = db.results id;
  notices = db.notices id;
  witnesses = db.witnesses id;
}

-- No two rows of the table of jobs have one id.
abbrev pub HasDistinctIds : List JobRow → Type 0
HasDistinctIds [] = Unit
HasDistinctIds (j ∷ jobs) = (find_job j.job_id jobs ≡ none) × HasDistinctIds jobs

abbrev pub with_state : JobState → Option JobRow → Option JobRow
with_state state none = none
with_state state (some j) = some (record j { state = state })

pub find_job-set_state :
    (id job_id : Text) (state : JobState) (jobs : List JobRow)
    → find_job id (map (set_state state job_id) jobs)
      ≡ (if text_eq id job_id then with_state state (find_job id jobs) else find_job id jobs)
unfolding find_job
find_job-set_state id job_id state [] = ground arith
find_job-set_state id job_id state (j ∷ jobs) = ground (
  arith,
  find_job-set_state id job_id state jobs,
  text_eq→eq j.job_id id,
  text_eq→eq id job_id,
  text_eq→eq j.job_id job_id,
  text_eq_refl id,
)

pub set_state-HasDistinctIds :
    (job_id : Text) (state : JobState) (jobs : List JobRow)
    → HasDistinctIds jobs
    → HasDistinctIds (map (set_state state job_id) jobs)
set_state-HasDistinctIds job_id state [] d = tt
set_state-HasDistinctIds job_id state (j ∷ jobs) d = ground (
  arith,
  set_state-HasDistinctIds job_id state jobs d.1,
  find_job-set_state j.job_id job_id state jobs,
)

pub find_job-append :
    (id : Text) (jobs : List JobRow) (row : JobRow)
    → find_job id (jobs ++ (row ∷ [])) ≡ (elim (find_job id jobs) [
      | none ↦ if text_eq row.job_id id then some row else none
      | some j ↦ some j
    ])
unfolding find_job
find_job-append id [] row = ground arith
find_job-append id (j ∷ jobs) row = ground (arith, find_job-append id jobs row)

pub append-HasDistinctIds :
    (jobs : List JobRow) (row : JobRow)
    → HasDistinctIds jobs
    → find_job row.job_id jobs ≡ none
    → HasDistinctIds (jobs ++ (row ∷ []))
unfolding find_job
append-HasDistinctIds [] row d fresh = (refl, tt)
append-HasDistinctIds (j ∷ jobs) row d fresh = ground (
  arith,
  append-HasDistinctIds jobs row d.1,
  find_job-append j.job_id jobs row,
  text_eq→eq row.job_id j.job_id,
  text_eq_refl j.job_id,
)

pub find_job-id :
    (id : Text) (jobs : List JobRow) {j : JobRow} → find_job id jobs ≡ some j → j.job_id ≡ id
unfolding find_job
find_job-id id [] e = ground arith
find_job-id id (k ∷ jobs) {j} e =
    ground (arith, find_job-id id jobs {j = j}, text_eq→eq k.job_id id)

-- Where ids are distinct, a row that is found with its owner is the row of that id.
pub find_owned→find_job :
    (id owner : Text) (jobs : List JobRow) {j : JobRow}
    → HasDistinctIds jobs
    → find_owned id owner jobs ≡ some j
    → (find_job id jobs ≡ some j) × (j.owner_uuid ≡ owner)
unfolding find_job find_owned
find_owned→find_job id owner [] d e = ground arith
find_owned→find_job id owner (k ∷ jobs) {j} d e = ground (
  arith,
  find_owned→find_job id owner jobs {j = j} d.1,
  text_eq→eq k.job_id id,
  text_eq→eq k.owner_uuid owner,
  d.0,
)

pub get_job_row-ok :
    (id owner : Text) (db : Db) {j : JobRow}
    → HasDistinctIds db.jobs
    → get_job_row id owner db ≡ ok j
    → (find_job id db.jobs ≡ some j) × (j.owner_uuid ≡ owner)
unfolding get_job_row
get_job_row-ok id owner db {j} d e = ground (arith, find_owned→find_job id owner db.jobs {j = j} d)
