-- ===== src/Store/Committed.antt =====
-- src/job-store.ts: the tables after a transaction.
use pi_watch.Base.{
  Text, Bool, Option, none, some, if◌then◌else◌, ◌≡◌, ◌⊎◌, inl, inr, refl, arith, Bool-cases,
}
use pi_watch.JobTypes.Errors.{Thrown, Result, ok, err}
use pi_watch.Store.Tables.{Db, Body}
use pi_watch.Store.Transaction.{
  CommitFate, Engine, Store, wrap_sqlite_error, rethrow, commit_phase, identity_of, body_phase,
  in_transaction,
}
use Prim.Native.String.{String}
use pi_watch.Store.Atomic.{Wrote}

module _ {A : Type 0} where
  commit_phase-db :
      (fate : CommitFate) (maintained : Bool) (identity : Option Text) (a : A) (db' : Db)
      (store : Store)
      → let store' = (commit_phase fate maintained identity a db' store).1 in
        (store'.db ≡ store.db) ⊎ (store'.db ≡ db')
  unfolding commit_phase
  commit_phase-db fate maintained identity a db' store = ground arith

  body_result-db :
      (engine : Engine) (body : Body A) (identity : Option (A → Text)) (store : Store)
      (r : Result (A × Db))
      → body store.db ≡ r
      → let out : Result A × Store = elim r [
        | err e ↦ (err (rethrow e), store)
        | ok (a, db') ↦
            commit_phase engine.commit engine.maintained (identity_of identity a) a db' store
      ] in
        (out.1.db ≡ store.db) ⊎ Wrote body store out.1
  body_result-db engine body identity store (err e) h = inl refl
  body_result-db engine body identity store (ok (a, db')) h =
      elim (commit_phase-db engine.commit engine.maintained (identity_of identity a) a db' store) [
        | inl same ↦ inl same
        | inr new ↦ inr (a, db', h, new)
      ]

  body_phase-db :
      (engine : Engine) (body : Body A) (identity : Option (A → Text)) (store : Store)
      (fault : Option Thrown)
      → engine.body_error ≡ fault
      → let store' = (body_phase engine body identity store).1 in
        (store'.db ≡ store.db) ⊎ Wrote body store store'
  unfolding body_phase
  body_phase-db engine body identity store none f =
      rw f (body_result-db engine body identity store (body store.db) refl)
  body_phase-db engine body identity store (some e) f = rw f (inl refl)

  begin-db :
      (engine : Engine) (body : Body A) (identity : Option (A → Text)) (store : Store)
      (begin_error : Option String)
      → let out : Result A × Store = elim begin_error [
        | some message ↦ (err (wrap_sqlite_error message), store)
        | none ↦ body_phase engine body identity store
      ] in
        (out.1.db ≡ store.db) ⊎ Wrote body store out.1
  begin-db engine body identity store none =
      body_phase-db engine body identity store engine.body_error refl
  begin-db engine body identity store (some message) = inl refl

  -- The tables after a transaction are those before it, or those that its body wrote.
  pub in_transaction-db :
      (engine : Engine) (body : Body A) (identity : Option (A → Text)) (begun : Bool)
      (store : Store)
      → let store' = (in_transaction engine body identity begun store).1 in
        (store'.db ≡ store.db) ⊎ Wrote body store store'
  unfolding in_transaction
  in_transaction-db engine body identity begun store = elim (Bool-cases store.writes_disabled) [
    | inl off ↦ simp off (inl refl)
    | inr on ↦
        simp on (begin-db engine body identity store (if begun then none else engine.begin_error))
  ]

  err_ne_ok : {e : Thrown} {a : A} → ◌≡◌ {A = Result A} (err e) (ok a) → ⊥
  err_ne_ok h = cc

  commit_phase-ok :
      (fate : CommitFate) (maintained : Bool) (identity : Option Text) (b : A) (db' : Db)
      (store : Store) {a : A}
      → (commit_phase fate maintained identity b db' store).0 ≡ ok a
      → (b ≡ a) × ((commit_phase fate maintained identity b db' store).1.db ≡ db')
  unfolding commit_phase
  commit_phase-ok fate maintained identity b db' store h = ground arith

  body_result-ok :
      (engine : Engine) (body : Body A) (identity : Option (A → Text)) (store : Store)
      (r : Result (A × Db)) {a : A}
      → let out : Result A × Store = elim r [
        | err e ↦ (err (rethrow e), store)
        | ok (b, db') ↦
            commit_phase engine.commit engine.maintained (identity_of identity b) b db' store
      ] in
        out.0 ≡ ok a → r ≡ ok (a, out.1.db)
  body_result-ok engine body identity store (err e) h = cc
  body_result-ok engine body identity store (ok (b, db')) h =
      let (same, new) =
        commit_phase-ok engine.commit engine.maintained (identity_of identity b) b db' store h in
      cc

  body_phase-ok :
      (engine : Engine) (body : Body A) (identity : Option (A → Text)) (store : Store)
      (fault : Option Thrown) {a : A}
      → engine.body_error ≡ fault
      → (body_phase engine body identity store).0 ≡ ok a
      → body store.db ≡ ok (a, (body_phase engine body identity store).1.db)
  unfolding body_phase
  body_phase-ok engine body identity store none f h =
      rw f (body_result-ok engine body identity store (body store.db) (rw f at h))
  body_phase-ok engine body identity store (some e) f h = absurd (err_ne_ok (rw f at h))

  begin-ok :
      (engine : Engine) (body : Body A) (identity : Option (A → Text)) (store : Store)
      (begin_error : Option String) {a : A}
      → let out : Result A × Store = elim begin_error [
        | some message ↦ (err (wrap_sqlite_error message), store)
        | none ↦ body_phase engine body identity store
      ] in
        out.0 ≡ ok a → body store.db ≡ ok (a, out.1.db)
  begin-ok engine body identity store none h =
      body_phase-ok engine body identity store engine.body_error refl h
  begin-ok engine body identity store (some message) h = absurd (err_ne_ok h)

  -- A transaction that returns a result has committed exactly what its body wrote.
  pub in_transaction-ok :
      (engine : Engine) (body : Body A) (identity : Option (A → Text)) (begun : Bool)
      (store : Store) {a : A}
      → (in_transaction engine body identity begun store).0 ≡ ok a
      → body store.db ≡ ok (a, (in_transaction engine body identity begun store).1.db)
  unfolding in_transaction
  in_transaction-ok engine body identity begun store h = elim (Bool-cases store.writes_disabled) [
    | inl off ↦ absurd (err_ne_ok (simp off at h))
    | inr on ↦ simp on (
        begin-ok engine body identity store (if begun then none else engine.begin_error)
          (simp on at h))
  ]
