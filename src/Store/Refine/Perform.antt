-- ===== src/Store/Refine/Perform.antt =====
-- src/job-store.ts: the calls of the store, against the steps of a job.
use pi_watch.Base.{Text, Bool, false, Option, none, ◌≡◌, refl, inl, inr, arith, ℕ}
use pi_watch.JobTypes.Errors.{Result, ok, err, ◌>>=◌}
use pi_watch.Store.Tables.{Db, Body}
use pi_watch.Store.Transaction.{Engine, Store, in_transaction}
use pi_watch.Store.Launch.{request_cancellation, claim_runner, decide_launch, heartbeat}
use pi_watch.Store.Publish.{reserve, publish_result, publish_uncertain_result, acknowledge_notice}
use pi_watch.Store.Operations.{
  Request, reserve_request, cancel_request, decide_request, claim_request, heartbeat_request,
  publish_request, uncertain_request, acknowledge_request, Response, Ambient, respond, validated,
  perform, validate_owner_uuid, validate_reservation, validate_well_formed, reservation,
  cancellation, decision, claim, counter, published, acknowledged,
}
use pi_watch.Store.Committed.{in_transaction-db}
use pi_watch.Store.View.{HasDistinctIds}
use pi_watch.Store.Refine.Defs.{Refines, Refines-refl}
use pi_watch.Store.Refine.Launch.{
  request_cancellation-Refines, claim_runner-Refines, heartbeat-Refines,
}
use pi_watch.Store.Refine.Decide.{decide_launch-Refines}
use pi_watch.Store.Refine.Publish.{
  reserve-Refines, publish_result-Refines, publish_uncertain_result-Refines,
  acknowledge_notice-Refines,
}

-- A body whose every success refines.
abbrev RefinesBody : {A : Type 0} → Body A → Db → Type 0
RefinesBody {A} body db = (a : A) (db' : Db) → body db ≡ ok (a, db') → Refines db db'

respond-ok :
    {A : Type 0} (f : A → Response) (x : Result (A × Db)) {r : Response} {db' : Db}
    → ◌>>=◌ {Y = Response × Db} x (λ d. ok (f d.0, d.1)) ≡ ok (r, db')
    → (a : A) × (x ≡ ok (a, db'))
respond-ok f (ok (a, db1)) h = (a, ground arith)
respond-ok f (err e) h = cc

respond-RefinesBody :
    {A : Type 0} (f : A → Response) (body : Body A) (db : Db)
    → RefinesBody body db
    → RefinesBody (respond f body) db
respond-RefinesBody f body db r a db' h = let (b, q) = respond-ok f (body db) h in r b db' q

transaction-Refines :
    {A : Type 0} (engine : Engine) (body : Body A) (identity : Option (A → Text)) (begun : Bool)
    (store : Store)
    → HasDistinctIds store.db.jobs
    → RefinesBody body store.db
    → Refines store.db (in_transaction engine body identity begun store).1.db
transaction-Refines engine body identity begun store d r =
    elim (in_transaction-db engine body identity begun store) [
      | inl same ↦ Refines-refl store.db _ same d
      | inr (a, db', h, e) ↦ rw e (r a db' h)
    ]

-- An answer given without a transaction leaves the store alone.
validated-Refines {ℓ} :
    {A : Type ℓ} (x : Result A) (f : A → Result Response × Store) (store : Store)
    → HasDistinctIds store.db.jobs
    → ((a : A) → Refines store.db (f a).1.db)
    → Refines store.db (validated x f store).1.db
validated-Refines (ok a) f store d h = h a
validated-Refines (err e) f store d h = Refines-refl store.db _ refl d

abbrev owned_acknowledge : ℕ → Result Text → Text → ℕ → Body (Unit {0})
owned_acknowledge now owner_uuid job_id revision db =
    owner_uuid >>= λ owner. acknowledge_notice now owner job_id revision db

owned_acknowledge-RefinesBody :
    (now : ℕ) (owner_uuid : Result Text) (job_id : Text) (revision : ℕ) (db : Db)
    → HasDistinctIds db.jobs
    → RefinesBody (owned_acknowledge now owner_uuid job_id revision) db
owned_acknowledge-RefinesBody now (ok owner) job_id revision db d a db' h =
    acknowledge_notice-Refines now owner job_id revision db d h
owned_acknowledge-RefinesBody now (err e) job_id revision db d a db' h = cc

module _ (sha256 : Text → Text) (ambient : Ambient) where
  open ambient use {now, fresh_uuid, runner_token, engine}

  -- One call of any writing operation, on any engine, takes every job by one step of its life
  -- or leaves it alone, and keeps the ids of the jobs distinct.
  pub perform-Refines :
      (request : Request) (store : Store)
      → HasDistinctIds store.db.jobs
      → Refines store.db (perform sha256 ambient request store).1.db
  unfolding perform
  perform-Refines (reserve_request input) store d =
      validated-Refines (validate_reservation fresh_uuid input) _ store d (λ r.
        transaction-Refines engine _ _ false store d (
          respond-RefinesBody reservation (reserve sha256 now runner_token r) store.db
            (λ a db' h. reserve-Refines sha256 now runner_token r store.db d h)))
  perform-Refines (cancel_request owner_uuid job_id) store d =
      validated-Refines (validate_owner_uuid owner_uuid) _ store d (λ owner.
        transaction-Refines engine _ none false store d (
          respond-RefinesBody cancellation (request_cancellation now owner job_id) store.db
            (λ a db' h. request_cancellation-Refines now owner job_id store.db d h)))
  perform-Refines (decide_request owner_uuid job_id claim_id token) store d =
      validated-Refines (validate_owner_uuid owner_uuid) _ store d (λ owner.
        validated-Refines (validate_well_formed claim_id "Claim id is invalid.") _ store d (λ id.
          transaction-Refines engine _ none false store d (
            respond-RefinesBody decision (decide_launch sha256 now owner job_id id token) store.db
              (λ a db' h. decide_launch-Refines sha256 now owner job_id id token store.db d h))))
  perform-Refines (claim_request owner_uuid job_id claim_id token) store d =
      validated-Refines (validate_owner_uuid owner_uuid) _ store d (λ owner.
        validated-Refines (validate_well_formed claim_id "Claim id is invalid.") _ store d (λ id.
          transaction-Refines engine _ none false store d (
            respond-RefinesBody claim (claim_runner sha256 now owner job_id id token) store.db
              (λ a db' h. claim_runner-Refines sha256 now owner job_id id token store.db d h))))
  perform-Refines (heartbeat_request owner_uuid job_id claim_id expected token) store d =
      validated-Refines (validate_owner_uuid owner_uuid) _ store d (λ owner.
        validated-Refines (validate_well_formed claim_id "Claim id is invalid.") _ store d (λ id.
          transaction-Refines engine _ none false store d (
            respond-RefinesBody counter (heartbeat sha256 now owner job_id id expected token)
              store.db
              (λ a db' h.
                heartbeat-Refines sha256 now owner job_id id expected token store.db d h))))
  perform-Refines (publish_request owner_uuid job_id claim_id expected evidence token) store d =
      validated-Refines (validate_owner_uuid owner_uuid) _ store d (λ owner.
        validated-Refines (validate_well_formed claim_id "Claim id is invalid.") _ store d (λ id.
          transaction-Refines engine _ none false store d (
            respond-RefinesBody published
              (publish_result sha256 now owner job_id id expected evidence token) store.db
              (λ a db' h.
                publish_result-Refines sha256 now owner job_id id expected evidence token store.db d
                  h))))
  perform-Refines (uncertain_request owner_uuid job_id witness) store d =
      validated-Refines (validate_owner_uuid owner_uuid) _ store d (λ owner.
        transaction-Refines engine _ none false store d (
          respond-RefinesBody published (publish_uncertain_result now owner job_id witness) store.db
            (λ a db' h. publish_uncertain_result-Refines now owner job_id witness store.db d h)))
  perform-Refines (acknowledge_request owner_uuid job_id revision) store d =
      transaction-Refines engine _ none false store d (
        respond-RefinesBody (λ _. acknowledged)
          (owned_acknowledge now (validate_owner_uuid owner_uuid) job_id revision) store.db
          (owned_acknowledge-RefinesBody now (validate_owner_uuid owner_uuid) job_id revision
            store.db d))
