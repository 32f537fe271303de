-- ===== src/Store/Run.antt =====
-- Sequences of calls of src/job-store.ts, by any callers over any connections, with any clock,
-- random source and engine faults.
use pi_watch.Base.{Text, Bool, true, false, List, [], ◌∷◌, refl}
use pi_watch.JobTypes.Errors.{Result}
use pi_watch.Store.Tables.{Db, empty_db, find_job, latest_of}
use pi_watch.Store.Transaction.{Store}
use pi_watch.Store.Launch.{latest_evidence}
use pi_watch.Evidence.Coherent.{initial_evidence-IsCoherent}
use pi_watch.Store.Operations.{Request, Response, Ambient, perform}
use pi_watch.Store.View.{view, HasDistinctIds}
use pi_watch.Store.Step.{JobStep}
use pi_watch.Store.Refine.Perform.{perform-Refines}
use pi_watch.Store.Life.Sound.{IsSound, JobStep-IsSound}
use pi_watch.Store.Life.Forward.{Forward, Forward-refl, Forward-trans, JobStep-Forward}

-- One call. On a connection that was just opened writes are enabled.
pub record Call : Type 0 where
  pub reopened : Bool
  pub ambient : Ambient
  pub request : Request

abbrev pub connected : Bool → Store → Store
connected true store = record store { writes_disabled = false }
connected false store = store

unfoldable pub call : (Text → Text) → Call → Store → Result Response × Store
call sha256 c store = perform sha256 c.ambient c.request (connected c.reopened store)

-- The store after a sequence of calls.
unfoldable pub run : (Text → Text) → List Call → Store → Store
run sha256 [] store = store
run sha256 (c ∷ calls) store = run sha256 calls (call sha256 c store).1

abbrev pub new_store : Store
new_store = record { db = empty_db; writes_disabled = false }

-- The store as a whole: ids are distinct, and every job is sound.
pub record IsSoundDb (db : Db) : Type 0 where
  pub distinct : HasDistinctIds db.jobs
  pub sound : (id : Text) → IsSound (view id db)

reconnected :
    (sha256 : Text → Text) (ambient : Ambient) (request : Request) (reopened : Bool) (store : Store)
    → HasDistinctIds store.db.jobs
    → let db' = (perform sha256 ambient request (connected reopened store)).1.db in
      HasDistinctIds db'.jobs × ((id : Text) → JobStep (view id store.db) (view id db'))
reconnected sha256 ambient request true store d =
    perform-Refines sha256 ambient request (connected true store) d
reconnected sha256 ambient request false store d = perform-Refines sha256 ambient request store d

pub call-step :
    (sha256 : Text → Text) (c : Call) (store : Store)
    → HasDistinctIds store.db.jobs
    → let db' = (call sha256 c store).1.db in
      HasDistinctIds db'.jobs × ((id : Text) → JobStep (view id store.db) (view id db'))
unfolding call
call-step sha256 c store d = reconnected sha256 c.ambient c.request c.reopened store d

pub call-IsSoundDb :
    (sha256 : Text → Text) (c : Call) (store : Store)
    → IsSoundDb store.db
    → IsSoundDb (call sha256 c store).1.db
call-IsSoundDb sha256 c store s =
    let (distinct, step) = call-step sha256 c store s.distinct in
    record { distinct = distinct; sound = λ id. JobStep-IsSound (step id) (s.sound id) }

run-IsSoundDb :
    (sha256 : Text → Text) (calls : List Call) (store : Store)
    → IsSoundDb store.db
    → IsSoundDb (run sha256 calls store).db
unfolding run
run-IsSoundDb sha256 [] store s = s
run-IsSoundDb sha256 (c ∷ calls) store s =
    run-IsSoundDb sha256 calls (call sha256 c store).1 (call-IsSoundDb sha256 c store s)

pub new_store-IsSoundDb : IsSoundDb empty_db
unfolding latest_of latest_evidence find_job
new_store-IsSoundDb = record {
  distinct = tt;
  sound = λ id. record {
    numbered = tt;
    coherent = initial_evidence-IsCoherent;
    rules = (refl, refl, refl);
    announced = tt;
  };
}

-- After any sequence of calls on a new store, whatever fails in it, job ids are distinct and every
-- job is sound: revisions are numbered without gaps, only the newest may be final, the evidence is
-- coherent, control, claim, state and deadline agree, and every revision has its notice.
pub run_sound :
    (sha256 : Text → Text) (calls : List Call) → IsSoundDb (run sha256 calls new_store).db
run_sound sha256 calls = run-IsSoundDb sha256 calls new_store new_store-IsSoundDb

-- No sequence of calls on a sound store takes back what it had established of any job: its row but
-- for the state, which moves forward only, its launch decision, its cancellation request, its
-- claim, its evidence, and all of its revisions once one is final.
pub run-Forward :
    (sha256 : Text → Text) (calls : List Call) (store : Store) (id : Text)
    → IsSoundDb store.db
    → Forward (view id store.db) (view id (run sha256 calls store).db)
unfolding run
run-Forward sha256 [] store id s = Forward-refl (view id store.db)
run-Forward sha256 (c ∷ calls) store id s =
    let next = (call sha256 c store).1 in
    Forward-trans _ _ _ (JobStep-Forward ((call-step sha256 c store s.distinct).1 id) (s.sound id))
      (run-Forward sha256 calls next id (call-IsSoundDb sha256 c store s))
