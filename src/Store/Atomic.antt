-- ===== src/Store/Atomic.antt =====
-- src/job-store.ts: what a transaction leaves behind, by how it ended.
use pi_watch.Base.{
  Text, Bool, true, false, Option, none, some, is_some, ◌||◌, if◌then◌else◌, ◌≡◌, ◌⊎◌, inl, inr,
  refl, Bool-cases,
}
use pi_watch.JobTypes.Errors.{
  Thrown, store_error, ambiguous_acceptance, store_write_error, foreign_error, Result, ok, err,
  CommitOutcome, unknown, committed,
}
use pi_watch.Store.Tables.{Db, Body}
use pi_watch.Store.Transaction.{
  CommitFate, succeeds, fails_undone, fails_durable, Engine, Store, wrap_sqlite_error, rethrow,
  commit_phase, identity_of, body_phase, in_transaction,
}
use Prim.Native.String.{String}
use text.Mathlib.Text.{find?}

-- The receipt of a commit whose response was lost.
abbrev pub receipt : Thrown → Option CommitOutcome
receipt (store_error code message) = none
receipt (ambiguous_acceptance candidate outcome) = some outcome
receipt (store_write_error outcome) = some outcome
receipt (foreign_error message) = none

module _ {A : Type 0} where
  -- The durable tables are those that the body wrote.
  abbrev pub Wrote : Body A → Store → Store → Type 0
  Wrote body store store' = (a : A) × (db' : Db) × (body store.db ≡ ok (a, db')) × (store'.db ≡ db')

  -- How a transaction may end.
  abbrev pub Ends : Body A → Store → Result A × Store → Type 0
  Ends body store (ok a, store') =
      (store'.writes_disabled ≡ false)
      × (db' : Db) × (body store.db ≡ ok (a, db'))
      × (store'.db ≡ db')
  Ends body store (err e, store') = elim (receipt e) [
    | none ↦ store' ≡ store
    | some committed ↦ (store'.writes_disabled ≡ true) × Wrote body store store'
    | some unknown ↦
        (store'.writes_disabled ≡ true) × ((store'.db ≡ store.db) ⊎ Wrote body store store')
  ]

  -- The body itself never throws a receipt.
  abbrev pub ThrowsPlainly : Body A → Type 0
  ThrowsPlainly body = (db : Db) (e : Thrown) → body db ≡ err e → receipt e ≡ none

  wrap-Ends :
      (body : Body A) (store : Store) (message : String)
      → Ends body store (err (wrap_sqlite_error message), store)
  unfolding wrap_sqlite_error
  wrap-Ends body store message =
      elim (Bool-cases
        (is_some (find? "SQLITE_BUSY" message) || is_some (find? "database is locked" message))) [
          | inl busy ↦ rw busy refl
          | inr other ↦ rw other refl
        ]

  commit-Ends :
      (fate : CommitFate) (maintained : Bool) (identity : Option Text) (a : A) (db' : Db)
      (store : Store) (body : Body A)
      → store.writes_disabled ≡ false
      → body store.db ≡ ok (a, db')
      → Ends body store (commit_phase fate maintained identity a db' store)
  unfolding commit_phase
  commit-Ends succeeds true identity a db' store body w h = (w, db', h, refl)
  commit-Ends succeeds false none a db' store body w h = (refl, (a, db', h, refl))
  commit-Ends succeeds false (some id) a db' store body w h = (refl, (a, db', h, refl))
  commit-Ends fails_undone maintained none a db' store body w h = (refl, inl refl)
  commit-Ends fails_undone maintained (some id) a db' store body w h = (refl, inl refl)
  commit-Ends fails_durable maintained none a db' store body w h = (refl, inr (a, db', h, refl))
  commit-Ends fails_durable maintained (some id) a db' store body w h =
      (refl, inr (a, db', h, refl))

  plain-Ends :
      (body : Body A) (store : Store) (e : Thrown)
      → receipt e ≡ none
      → Ends body store (err (rethrow e), store)
  unfolding rethrow
  plain-Ends body store (store_error code message) h = refl
  plain-Ends body store (ambiguous_acceptance candidate outcome) h = cc
  plain-Ends body store (store_write_error outcome) h = cc
  plain-Ends body store (foreign_error message) h = wrap-Ends body store message

  body_result-Ends :
      (engine : Engine) (body : Body A) (identity : Option (A → Text)) (store : Store)
      (r : Result (A × Db))
      → store.writes_disabled ≡ false
      → body store.db ≡ r
      → ThrowsPlainly body
      → Ends body store (elim r [
        | err e ↦ (err (rethrow e), store)
        | ok (a, db') ↦
            commit_phase engine.commit engine.maintained (identity_of identity a) a db' store
      ])
  body_result-Ends engine body identity store (err e) w h plain =
      plain-Ends body store e (plain store.db e h)
  body_result-Ends engine body identity store (ok (a, db')) w h plain =
      commit-Ends engine.commit engine.maintained (identity_of identity a) a db' store body w h

  body_error-Ends :
      (engine : Engine) (body : Body A) (identity : Option (A → Text)) (store : Store)
      (fault : Option Thrown)
      → engine.body_error ≡ fault
      → store.writes_disabled ≡ false
      → ThrowsPlainly body
      → ((e : Thrown) → engine.body_error ≡ some e → receipt e ≡ none)
      → Ends body store (body_phase engine body identity store)
  unfolding body_phase
  body_error-Ends engine body identity store none f w plain faults =
      rw f (body_result-Ends engine body identity store (body store.db) w refl plain)
  body_error-Ends engine body identity store (some e) f w plain faults =
      rw f (plain-Ends body store e (faults e f))

  begin-Ends :
      (engine : Engine) (body : Body A) (identity : Option (A → Text)) (store : Store)
      (begin_error : Option String)
      → store.writes_disabled ≡ false
      → ThrowsPlainly body
      → ((e : Thrown) → engine.body_error ≡ some e → receipt e ≡ none)
      → Ends body store (elim begin_error [
        | some message ↦ (err (wrap_sqlite_error message), store)
        | none ↦ body_phase engine body identity store
      ])
  begin-Ends engine body identity store none w plain faults =
      body_error-Ends engine body identity store engine.body_error refl w plain faults
  begin-Ends engine body identity store (some message) w plain faults = wrap-Ends body store message

  -- A transaction on a connection that still writes ends in one of four ways: with a result and
  -- exactly the tables that its body wrote; with a plain store error and nothing changed; with a
  -- receipt that says `committed`, its writes durable; or with one that says `unknown`, and then
  -- its writes are durable or nothing changed. After either receipt writes are disabled. The body
  -- and the engine's faults are assumed to throw no receipt of their own.
  pub in_transaction-Ends :
      (engine : Engine) (body : Body A) (identity : Option (A → Text)) (begun : Bool)
      (store : Store)
      → store.writes_disabled ≡ false
      → ThrowsPlainly body
      → ((e : Thrown) → engine.body_error ≡ some e → receipt e ≡ none)
      → Ends body store (in_transaction engine body identity begun store)
  unfolding in_transaction
  in_transaction-Ends engine body identity begun store w plain faults = simp w (
      begin-Ends engine body identity store (if begun then none else engine.begin_error) w plain
        faults)
