-- ===== src/Store/Refine/Defs.antt =====
-- What a body of a transaction promises to every job, and how it is shown.
use pi_watch.Base.{
  Text, text_eq, text_eq→eq, text_eq_refl, true, false, ◌≡◌, refl, Bool-cases, inl, inr,
}
use pi_watch.Store.Tables.{Db}
use pi_watch.Store.View.{view, HasDistinctIds}
use pi_watch.Store.Step.{JobStep}

-- What a body promises to every job.

abbrev pub Refines : Db → Db → Type 0
Refines db db' = HasDistinctIds db'.jobs × ((id : Text) → JobStep (view id db) (view id db'))

pub Refines-refl : (db db' : Db) → db' ≡ db → HasDistinctIds db.jobs → Refines db db'
Refines-refl db db' e d = rw e (d, λ id. JobStep.unchanged refl)

-- One job takes a step, and every other is left alone.
pub Refines-of :
    (job_id : Text) (db db' : Db)
    → HasDistinctIds db'.jobs
    → (text_eq job_id job_id ≡ true → JobStep (view job_id db) (view job_id db'))
    → ((id : Text) → text_eq id job_id ≡ false → view id db' ≡ view id db)
    → Refines db db'
Refines-of job_id db db' d here elsewhere = (
  d,
  λ id. elim (Bool-cases (text_eq id job_id)) [
    | inl same ↦ rw (text_eq→eq id job_id same) (here (text_eq_refl job_id))
    | inr other ↦ JobStep.unchanged (elsewhere id other)
  ],
)
