-- ===== src/Store/Life/Revisions.antt =====
-- src/job-store.ts: the numbers of the revisions of a job, and which may be final.
use pi_watch.Base.{suc, ◌+◌, false, Option, none, some, List, [], ◌∷◌, length, ◌≡◌, refl, arith}
use pi_watch.Store.Tables.{ResultRow, latest_of}
use pi_watch.Store.Rows.{is_set}
use pi_watch.Store.Launch.{latest_revision, latest_finalized}

abbrev pub AllOpen : List ResultRow → Type 0
AllOpen [] = Unit
AllOpen (r ∷ rest) = (is_set r.finalized ≡ false) × AllOpen rest

abbrev pub IsNumbered : List ResultRow → Type 0
IsNumbered [] = Unit
IsNumbered (r ∷ rest) = (r.revision ≡ suc (length rest)) × AllOpen rest × IsNumbered rest

abbrev pub head_of : List ResultRow → Option ResultRow
head_of [] = none
head_of (r ∷ rest) = some r

-- The row that the query selects is the newest one.
pub latest_of-head :
    (rows : List ResultRow)
    → IsNumbered rows
    → (latest_of rows ≡ head_of rows) × (latest_revision (latest_of rows) ≡ length rows)
unfolding latest_of
latest_of-head [] n = (refl, refl)
latest_of-head (r ∷ rest) n = ground (arith, latest_of-head rest n.2)

pub latest_finalized-AllOpen :
    (rows : List ResultRow)
    → IsNumbered rows
    → latest_finalized (latest_of rows) ≡ false
    → AllOpen rows
latest_finalized-AllOpen [] n h = tt
latest_finalized-AllOpen (r ∷ rest) n h = ground (arith, latest_of-head (r ∷ rest) n)

pub cons-IsNumbered :
    (row : ResultRow) (rows : List ResultRow)
    → IsNumbered rows
    → latest_finalized (latest_of rows) ≡ false
    → row.revision ≡ latest_revision (latest_of rows) + 1
    → IsNumbered (row ∷ rows) × (latest_of (row ∷ rows) ≡ some row)
cons-IsNumbered row rows n h e =
    let open_rows = latest_finalized-AllOpen rows n h in
    let (same, count) = latest_of-head rows n in
    let next : IsNumbered (row ∷ rows) = (omega arith, open_rows, n) in
    (next, (latest_of-head (row ∷ rows) next).0)
