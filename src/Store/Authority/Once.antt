-- ===== src/Store/Authority/Once.antt =====
-- src/job-store.ts: the calls that answer `authorized_now` for one job, counted.
use pi_watch.Base.{
  ℕ, ◌+◌, ◌≤◌, Text, text_eq, text_eq→eq, Bool, true, false, ◌&&◌, Option, none, some, List, [],
  ◌∷◌, ◌≡◌, ◌≢◌, refl, arith, if◌then◌else◌, Bool-cases, inl, inr,
}
use pi_watch.JobTypes.Errors.{Result, ok, err, ◌>>=◌}
use pi_watch.Evidence.Extends.{Keeps}
use pi_watch.Store.Tables.{Db, authorized, known}
use pi_watch.Store.Transaction.{Store, in_transaction}
use pi_watch.Store.Launch.{LaunchDecisionResult, decide_launch}
use pi_watch.Store.Operations.{
  Request, decide_request, Response, decision, Ambient, perform, validated, respond,
  validate_owner_uuid, validate_well_formed,
}
use pi_watch.Store.Committed.{in_transaction-ok}
use pi_watch.Store.View.{view}
use pi_watch.Store.Life.Forward.{decision_of, Forward, JobStep-Forward}
use pi_watch.Store.Run.{Call, call, connected, IsSoundDb, call-IsSoundDb, call-step}
use pi_watch.Store.Authority.Grants.{is_authorized_now, decide_launch-authorized}

respond-ok :
    (x : Result (LaunchDecisionResult × Db)) {r : Response} {db' : Db}
    → ◌>>=◌ {Y = Response × Db} x (λ d. ok (decision d.0, d.1)) ≡ ok (r, db')
    → (a : LaunchDecisionResult) × (x ≡ ok (a, db')) × (r ≡ decision a)
respond-ok (ok (a, db1)) h = (a, ground arith, ground arith)
respond-ok (err e) h = cc

-- Does this call authorize the launch of `id`?
abbrev authorizes_answer : Text → Text → Result Response → Bool
authorizes_answer id job_id (ok (decision a)) = text_eq job_id id && is_authorized_now a.disposition
authorizes_answer id job_id _ = false

pub authorizes : Text → Request → Result Response → Bool
authorizes id (decide_request owner job_id claim token) answer = authorizes_answer id job_id answer
authorizes id _ answer = false

answer_parts :
    (id job_id : Text) (answer : Result Response)
    → authorizes_answer id job_id answer ≡ true
    → (a : LaunchDecisionResult) × (answer ≡ ok (decision a))
      × (text_eq job_id id ≡ true)
      × (is_authorized_now a.disposition ≡ true)
answer_parts id job_id answer h = ground arith

-- An authorization finds the job undecided, and leaves it decided.
abbrev Decides : Text → Store → Store → Type 0
Decides id store store' =
    (decision_of (store.db.controls id) ≡ none)
    × (decision_of (store'.db.controls id) ≡ some (known authorized))

module _ (sha256 : Text → Text) (ambient : Ambient) (job_id id : Text) (token : Option Text) where
  open ambient use {now, engine}

  transaction-Decides :
      (owner claim : Text) (store : Store)
      → let out =
          in_transaction engine
            (respond decision (decide_launch sha256 now owner job_id claim token))
            none
            false
            store in
        authorizes_answer id job_id out.0 ≡ true → Decides id store out.1
  transaction-Decides owner claim store h =
      let body = respond decision (decide_launch sha256 now owner job_id claim token) in
      let (a, answered, same, granted) = answer_parts id job_id _ h in
      let committed = in_transaction-ok engine body none false store answered in
      let (b, ran, q) =
        respond-ok (decide_launch sha256 now owner job_id claim token store.db) committed in
      let (j, got, proven, held, undecided, uncancelled, early, running, initial, now_decided) =
        decide_launch-authorized sha256 now owner job_id claim token store.db ran
          (ground (arith, granted, q)) in
      (rw (← text_eq→eq job_id id same) undecided, rw (← text_eq→eq job_id id same) now_decided)

  validated-Decides :
      (owner claim : Result Text) (store : Store)
      → let out =
          validated owner
            (λ o.
              validated claim
                (λ c.
                  in_transaction engine
                    (respond decision (decide_launch sha256 now o job_id c token))
                    none
                    false
                    store)
                store)
            store in
        authorizes_answer id job_id out.0 ≡ true → Decides id store out.1
  validated-Decides (ok o) (ok c) store h = transaction-Decides o c store h
  validated-Decides (ok o) (err e) store h = cc
  validated-Decides (err e) claim store h = cc

perform-Decides :
    (sha256 : Text → Text) (ambient : Ambient) (request : Request) (store : Store) (id : Text)
    → let out = perform sha256 ambient request store in
      authorizes id request out.0 ≡ true → Decides id store out.1
unfolding perform authorizes
perform-Decides sha256 ambient (decide_request owner job_id claim token) store id h =
    validated-Decides sha256 ambient job_id id token (validate_owner_uuid owner)
      (validate_well_formed claim "Claim id is invalid.") store h
perform-Decides sha256 ambient _ store id h = cc

call-Decides :
    (sha256 : Text → Text) (ambient : Ambient) (request : Request) (reopened : Bool) (store : Store)
    (id : Text)
    → let out = perform sha256 ambient request (connected reopened store) in
      authorizes id request out.0 ≡ true → Decides id store out.1
call-Decides sha256 ambient request true store id h =
    perform-Decides sha256 ambient request (connected true store) id h
call-Decides sha256 ambient request false store id h =
    perform-Decides sha256 ambient request store id h

-- How often the launch of `id` is authorized in a sequence of calls.
unfoldable pub authorizations : (Text → Text) → Text → List Call → Store → ℕ
unfolding authorizes
authorizations sha256 id [] store = 0
authorizations sha256 id (c ∷ calls) store =
    let (answer, next) = call sha256 c store in
    (if authorizes id c.request answer then 1 else 0) + authorizations sha256 id calls next

call-Forward :
    (sha256 : Text → Text) (id : Text) (c : Call) (store : Store)
    → IsSoundDb store.db
    → Forward (view id store.db) (view id (call sha256 c store).1.db)
call-Forward sha256 id c store s =
    JobStep-Forward ((call-step sha256 c store s.distinct).1 id) (s.sound id)

Keeps-ne_none {ℓ} : {A : Type ℓ} (a b : Option A) → Keeps a b → a ≢ none → b ≢ none
Keeps-ne_none none b h n = absurd (n refl)
Keeps-ne_none (some a) b h n = ground arith

authorizes-call :
    (sha256 : Text → Text) (id : Text) (c : Call) (store : Store)
    → authorizes id c.request (call sha256 c store).0 ≡ true
    → Decides id store (call sha256 c store).1
unfolding call
authorizes-call sha256 id c store h = call-Decides sha256 c.ambient c.request c.reopened store id h

-- Once a job is decided nothing authorizes it.
decided_stays :
    (sha256 : Text → Text) (id : Text) (calls : List Call) (store : Store)
    → IsSoundDb store.db
    → decision_of (store.db.controls id) ≢ none
    → authorizations sha256 id calls store ≡ 0
unfolding authorizations
decided_stays sha256 id [] store s d = refl
decided_stays sha256 id (c ∷ calls) store s d =
    let (answer, next) = call sha256 c store in
    let rest =
      decided_stays sha256 id calls next (call-IsSoundDb sha256 c store s)
        (Keeps-ne_none _ _ (call-Forward sha256 id c store s).decision d) in
    elim (Bool-cases (authorizes id c.request answer)) [
      | inl yes_now ↦ absurd (d (authorizes-call sha256 id c store yes_now).0)
      | inr not_now ↦ rw (not_now, rest) refl
    ]

-- On a sound store, in any sequence of calls over any connections and with any engine faults,
-- `decideLaunch` answers `authorized_now` for one job at most once.
pub authorized_at_most_once :
    (sha256 : Text → Text) (id : Text) (calls : List Call) (store : Store)
    → IsSoundDb store.db
    → authorizations sha256 id calls store ≤ 1
unfolding authorizations
authorized_at_most_once sha256 id [] store s = omega arith
authorized_at_most_once sha256 id (c ∷ calls) store s =
    let (answer, next) = call sha256 c store in
    let sound = call-IsSoundDb sha256 c store s in
    elim (Bool-cases (authorizes id c.request answer)) [
      | inl now_granted ↦
          let granted = authorizes-call sha256 id c store now_granted in
          let none_later =
            decided_stays sha256 id calls next sound (λ e. ground (arith, granted.1, e)) in
          rw (now_granted, none_later) (omega arith)
      | inr not_now ↦ rw not_now (omega (arith, authorized_at_most_once sha256 id calls next sound))
    ]
