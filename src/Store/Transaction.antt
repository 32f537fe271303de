-- ===== src/Store/Transaction.antt =====
-- src/job-store.ts: `inTransaction` and `wrapSqliteError`. What SQLite and the file system do in
-- one transaction is an argument, `Engine`.
use Prim.Native.String.{String}
use text.Mathlib.Text.{find?}
use pi_watch.Base.{Text, Bool, true, false, ◌||◌, Option, none, some, is_some, if◌then◌else◌}
use pi_watch.JobTypes.Errors.{
  Thrown, store_error, ambiguous_acceptance, store_write_error, foreign_error, Result, ok, err,
  CommitOutcome, unknown, committed, store_busy, store_unavailable,
}
use pi_watch.Store.Tables.{Db, Body}

-- `COMMIT` succeeds, or fails with the transaction undone or, after all, durable.
pub data CommitFate : Type 0 where
  succeeds fails_undone fails_durable : CommitFate

pub record Engine : Type 0 where
  pub begin_error : Option String  -- the text of the error that `BEGIN IMMEDIATE` throws
  pub body_error : Option Thrown  -- thrown at a statement of the body, or by `beforeCommit`
  pub commit : CommitFate
  pub maintained : Bool  -- neither `maintainSidecarPrivacy` nor `afterCommit` throws

abbrev pub sound_engine : Engine
sound_engine = record {
  begin_error = none;
  body_error = none;
  commit = succeeds;
  maintained = true;
}

-- The durable tables, and the flag `writesDisabled` of the connection.
pub record Store : Type 0 where
  pub db : Db
  pub writes_disabled : Bool

-- `wrapSqliteError` on the text of an engine's error.
unfoldable pub wrap_sqlite_error : String → Thrown
wrap_sqlite_error message =
    if is_some (find? "SQLITE_BUSY" message) || is_some (find? "database is locked" message)
    then store_error store_busy "Store is busy; retry the idempotent operation."
    else store_error store_unavailable "Store operation failed."

-- `error instanceof StoreError ? error : wrapSqliteError(error)`
unfoldable pub rethrow : Thrown → Thrown
unfolding wrap_sqlite_error
rethrow (foreign_error message) = wrap_sqlite_error message
rethrow (store_error code message) = store_error code message
rethrow (ambiguous_acceptance candidate outcome) = ambiguous_acceptance candidate outcome
rethrow (store_write_error outcome) = store_write_error outcome

-- The error of a commit without a receipt.
abbrev pub receipt_loss : Option Text → CommitOutcome → Thrown
receipt_loss none outcome = store_write_error outcome
receipt_loss (some candidate) outcome = ambiguous_acceptance candidate outcome

module _ {A : Type 0} where
  -- What follows a body that has run: COMMIT, and the maintenance after it.
  unfoldable pub commit_phase : CommitFate → Bool → Option Text → A → Db → Store → Result A × Store
  commit_phase succeeds true identity a db' store = (ok a, record store { db = db' })
  commit_phase succeeds false identity a db' store =
      (err (receipt_loss identity committed), record { db = db'; writes_disabled = true })
  commit_phase fails_undone maintained identity a db' store =
      (err (receipt_loss identity unknown), record store { writes_disabled = true })
  commit_phase fails_durable maintained identity a db' store =
      (err (receipt_loss identity unknown), record { db = db'; writes_disabled = true })

  -- The identity that an ambiguous acceptance names, where the operation has one.
  abbrev pub identity_of : Option (A → Text) → A → Option Text
  identity_of none a = none
  identity_of (some f) a = some (f a)

  -- The body, between BEGIN and COMMIT. A throw rolls it back.
  unfoldable pub body_phase : Engine → Body A → Option (A → Text) → Store → Result A × Store
  unfolding rethrow commit_phase
  body_phase engine body identity store = elim engine.body_error [
    | some e ↦ (err (rethrow e), store)
    | none ↦ elim (body store.db) [
      | err e ↦ (err (rethrow e), store)
      | ok (a, db') ↦
          commit_phase engine.commit engine.maintained (identity_of identity a) a db' store
    ]
  ]

  -- `inTransaction`; `identity` is its argument `acceptanceIdentity`, and `begun` is
  -- `alreadyBegun`.
  unfoldable pub in_transaction :
      Engine → Body A → Option (A → Text) → Bool → Store → Result A × Store
  unfolding body_phase wrap_sqlite_error
  in_transaction engine body identity begun store =
      if store.writes_disabled
      then (
        err (store_error store_unavailable "Store writes disabled after a storage failure."),
        store,
      )
      else elim (if begun then none else engine.begin_error) [
        | some message ↦ (err (wrap_sqlite_error message), store)
        | none ↦ body_phase engine body identity store
      ]
