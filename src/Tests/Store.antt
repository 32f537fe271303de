-- ===== src/Tests/Store.antt =====
-- One job from reservation to result, and the theorems about the store at it.
use pi_watch.Base.{
  ℕ, ◌≤◌, ◌<◌, Text, text, text_eq, true, false, none, some, List, [], length, ◌∷◌, ◌≡◌, refl,
  arith,
}
use pi_watch.JobTypes.Errors.{ok, err, store_error, not_found}
use pi_watch.JobTypes.Validate.{string, undefined, matches_uuid}
use pi_watch.Evidence.Defs.{no_observation, initial_evidence}
use pi_watch.Store.Tables.{
  Db, empty_db, find_job, update, get_job_row, find_owned, latest_of, JobRow, ControlRow, ClaimRow,
  explicit, claimed, authorized, known, Body,
}
use pi_watch.Store.Rows.{
  row_to_control, is_initial_evidence_only, row_to_evidence, evidence_to_row,
  row_to_evidence-evidence_to_row,
}
use pi_watch.Store.Launch.{
  decide_launch, assert_runner_token, matches_token, LaunchDecisionResult, authorized_now,
  set_decision, lacks_claim, is_settled,
}
use pi_watch.Store.Atomic.{Ends, ThrowsPlainly, in_transaction-Ends}
use pi_watch.Store.Refine.Defs.{Refines}
use pi_watch.Store.Refine.Perform.{perform-Refines}
use pi_watch.Store.Authority.Grants.{is_authorized_now, decide_launch-authorized}
use pi_watch.Store.Transaction.{sound_engine, Engine, fails_durable, in_transaction}
use pi_watch.Store.Operations.{
  cancel_request, reserve_request, claim_request, decide_request, Ambient, Request, perform,
  validate_owner_uuid,
}
use pi_watch.Store.View.{view}
use pi_watch.Store.Run.{
  Call, call, run, new_store, new_store-IsSoundDb, run_sound, run-Forward, IsSoundDb,
}
use pi_watch.Store.Life.Forward.{Forward, decision_of, cancellation_of}
use pi_watch.Store.Authority.Once.{authorizations, authorized_at_most_once}
use pi_watch.Store.Launch.{request_cancellation, claim_runner, heartbeat}
use pi_watch.Store.Publish.{
  StaleWitness, acknowledge_notice, publish_result, publish_uncertain_result,
}
use pi_watch.Store.Read.{list_notices, get_job, list_results, observe}
use pi_watch.Store.Authority.Notices.{no_notice, notices_fenced}
use pi_watch.Store.Authority.Fence.{no_job, owner_fence}

abbrev pub owner : Text
owner = text "11111111-1111-4111-8111-111111111111"

abbrev pub job : Text
job = text "22222222-2222-4222-8222-222222222222"

abbrev pub token : Text
token = text "abcdefghijklmnopqrstuvwxyzABCDEFGHIJKLMNOPQ"

-- A stand-in for the hash.
abbrev pub plain : Text → Text
plain t = t

abbrev at : ℕ → Engine → Ambient
at now engine = record { now = now; fresh_uuid = job; runner_token = token; engine = engine }

abbrev lossy_engine : Engine
lossy_engine = record sound_engine { commit = fails_durable }

abbrev reserving : Request
reserving = reserve_request (record {
  owner_uuid = string owner;
  session_path = string (text "/s");
  namespace = string (text "explicit");
  request_key = string (text "build-1");
  command = string (text "make");
  cwd = string (text "/work");
  deadline_ms = undefined;
  candidate_job_id = undefined;
})

abbrev claiming : Request
claiming = claim_request (string owner) job (string (text "c1")) (some token)

abbrev deciding : Request
deciding = decide_request (string owner) job (string (text "c1")) (some token)

abbrev quick_call : ℕ → Request → Call
quick_call now request = record {
  reopened = false;
  ambient = at now sound_engine;
  request = request;
}

-- The second decision is asked again after its first answer.
abbrev life : List Call
life =
    quick_call 10 reserving
    ∷ quick_call 20 claiming
    ∷ quick_call 30 deciding
    ∷ quick_call 40 deciding
    ∷ []

-- The commit of the decision fails after it became durable; the caller asks again.
abbrev lost_life : List Call
lost_life =
    quick_call 10 reserving
    ∷ quick_call 20 claiming
    ∷ record { reopened = false; ambient = at 30 lossy_engine; request = deciding }
    ∷ record { reopened = true; ambient = at 40 sound_engine; request = deciding }
    ∷ []

run_sound_example : IsSoundDb (run plain life new_store).db
run_sound_example = run_sound plain life

run-Forward_example :
    Forward
      (view job (run plain life new_store).db)
      (view job (run plain lost_life (run plain life new_store)).db)
run-Forward_example =
    run-Forward plain lost_life (run plain life new_store) job (run_sound plain life)

authorized_at_most_once_example : authorizations plain job life new_store ≤ 1
authorized_at_most_once_example =
    authorized_at_most_once plain job life new_store new_store-IsSoundDb

-- The tables after the claim.
abbrev pub claimed_row : JobRow
claimed_row = record {
  creation_ordinal = 1;
  job_id = job;
  owner_uuid = owner;
  owner_session_path = text "/s";
  runner_token_hash = token;
  request_namespace = explicit;
  request_key = text "build-1";
  command = text "make";
  cwd = text "/work";
  deadline_ms = 1000;
  accepted_at_ms = 10;
  deadline_at_ms = 1010;
  state = claimed;
}

abbrev control_row : ControlRow
control_row = record {
  cancellation_requested_at_ms = none;
  launch_decision = none;
  decided_at_ms = none;
}

abbrev claim_row : ClaimRow
claim_row = record {
  claim_id = text "c1";
  claimed_at_ms = 20;
  heartbeat_counter = 0;
  heartbeat_at_ms = none;
}

abbrev pub claimed_db : Db
claimed_db = record empty_db {
  jobs = claimed_row ∷ [];
  sequence = 1;
  controls = update (λ _. none) job (some control_row);
  claims = update (λ _. none) job (some claim_row);
}

abbrev granted : LaunchDecisionResult
granted = record {
  disposition = authorized_now;
  control = record {
    cancellation_requested_at_ms = none;
    launch_decision = some authorized;
    decided_at_ms = some 30;
  };
}

abbrev granted_db : Db
granted_db = set_decision job authorized 30 (some control_row) claimed_db

decide_granted :
    decide_launch plain 30 owner job (text "c1") (some token) claimed_db ≡ ok (granted, granted_db)
unfolding decide_launch get_job_row find_owned text_eq assert_runner_token matches_token
    row_to_control is_initial_evidence_only latest_of
decide_granted = refl

granted_is : is_authorized_now authorized_now ≡ true
unfolding is_authorized_now
granted_is = refl

decide_launch-authorized_example :
    (j : JobRow) × (get_job_row job owner claimed_db ≡ ok j)
    × (assert_runner_token plain j (some token) ≡ ok tt)
    × (lacks_claim (claimed_db.claims job) (text "c1") ≡ false)
    × (decision_of (claimed_db.controls job) ≡ none)
    × (cancellation_of (claimed_db.controls job) ≡ none)
    × (30 < j.deadline_at_ms)
    × (is_settled j.state ≡ false)
    × (is_initial_evidence_only (latest_of (claimed_db.results job)) ≡ true)
    × (decision_of (granted_db.controls job) ≡ some (known authorized))
decide_launch-authorized_example =
    decide_launch-authorized plain 30 owner job (text "c1") (some token) claimed_db decide_granted
      granted_is

perform-Refines_example :
    Refines claimed_db
      (perform plain
        (at 30 lossy_engine)
        deciding
        (record { db = claimed_db; writes_disabled = false })).1.db
unfolding find_job
perform-Refines_example =
    perform-Refines plain (at 30 lossy_engine) deciding
      (record { db = claimed_db; writes_disabled = false }) (refl, tt)

-- A body that reads the claim, and refuses where there is none.
abbrev read_claim : Body ClaimRow
read_claim db = elim (db.claims job) [
  | none ↦ err (store_error not_found "No claim.")
  | some row ↦ ok (row, record db { sequence = 2 })
]

read_claim-ThrowsPlainly : ThrowsPlainly read_claim
read_claim-ThrowsPlainly db e h = ground arith

in_transaction-Ends_example :
    Ends read_claim
      (record { db = claimed_db; writes_disabled = false })
      (in_transaction lossy_engine read_claim none false
        (record { db = claimed_db; writes_disabled = false }))
in_transaction-Ends_example =
    in_transaction-Ends lossy_engine read_claim none false
      (record { db = claimed_db; writes_disabled = false }) refl read_claim-ThrowsPlainly
      (λ e h. ground arith)

row_to_evidence-evidence_to_row_example :
    row_to_evidence (evidence_to_row 1 initial_evidence 40) ≡ initial_evidence
row_to_evidence-evidence_to_row_example = row_to_evidence-evidence_to_row 1 initial_evidence 40

abbrev stranger : Text
stranger = text "33333333-3333-4333-8333-333333333333"

stranger_valid : validate_owner_uuid (string stranger) ≡ ok stranger
unfolding validate_owner_uuid matches_uuid pi_watch.JobTypes.Validate.skip_run
stranger_valid = refl

owned_by_other : find_owned job stranger claimed_db.jobs ≡ none
unfolding find_owned text_eq
owned_by_other = refl

abbrev stale : StaleWitness
stale = record { observed_claim_id = some (text "c1"); observed_counter = 0; observed_revision = 0 }

owner_fence_example :
    (request_cancellation 30 stranger job claimed_db ≡ err no_job)
    × (claim_runner plain 30 stranger job (text "c1") (some token) claimed_db ≡ err no_job)
    × (decide_launch plain 30 stranger job (text "c1") (some token) claimed_db ≡ err no_job)
    × (heartbeat plain 30 stranger job (text "c1") 0 (some token) claimed_db ≡ err no_job)
    × (publish_result plain 30 stranger job (text "c1") none no_observation (some token) claimed_db
        ≡ err no_job)
    × (publish_uncertain_result 30 stranger job stale claimed_db ≡ err no_job)
    × (observe stranger job claimed_db ≡ err no_job)
    × (get_job (string stranger) job claimed_db ≡ err no_job)
    × (list_results (string stranger) job claimed_db ≡ ok [])
owner_fence_example =
    owner_fence plain 30 stranger job (text "c1") (some token) 0 none no_observation stale
      claimed_db stranger_valid owned_by_other

-- A cancelled job: the decision suppresses the launch and announces the final revision.
abbrev cancelled_life : List Call
cancelled_life =
    quick_call 10 reserving
    ∷ quick_call 15 (cancel_request (string owner) job)
    ∷ quick_call 20 claiming
    ∷ quick_call 30 deciding
    ∷ []

cancelled_life-notices :
    let db = (run plain cancelled_life new_store).db in
    (length (db.notices job) ≡ 1) × (find_owned job stranger db.jobs ≡ none)
unfolding run call perform validate_owner_uuid matches_uuid pi_watch.JobTypes.Validate.skip_run
    pi_watch.Store.Operations.validate_well_formed
    pi_watch.JobTypes.Validate.is_well_formed_non_empty in_transaction
    pi_watch.Store.Operations.validate_reservation pi_watch.Store.Operations.validate_namespace
    text_eq pi_watch.JobTypes.Validate.validate_request_key
    pi_watch.JobTypes.Validate.validate_command pi_watch.Store.Operations.validate_cwd
    pi_watch.JobTypes.Validate.validate_deadline_ms
    pi_watch.JobTypes.Validate.allocate_reservation_id pi_watch.Store.Publish.reserve
    pi_watch.Store.Publish.find_request pi_watch.Store.Publish.insert_reservation
    pi_watch.Evidence.Merge.merge_cleanup pi_watch.Evidence.Merge.merge_cleanup_facts
    pi_watch.Evidence.Merge.merge_evidence pi_watch.Evidence.Merge.merge_flag
    pi_watch.Evidence.Merge.merge_known pi_watch.Evidence.Merge.merge_launch
    pi_watch.Evidence.Merge.merge_outcome pi_watch.Evidence.Merge.merge_stream
    pi_watch.JobTypes.Validate.matches_request_key pi_watch.JobTypes.Validate.pairs_surrogates
    pi_watch.JobTypes.Validate.require_string assert_runner_token
    pi_watch.Store.Launch.claim_id_taken claim_runner decide_launch
    pi_watch.Store.Launch.latest_evidence matches_token request_cancellation
    pi_watch.Store.Launch.suppress_launch pi_watch.Store.Publish.append_revision
    pi_watch.Store.Publish.get_row evidence_to_row is_initial_evidence_only row_to_control
    row_to_evidence pi_watch.Store.Rows.row_to_job find_job find_owned get_job_row
    pi_watch.Store.Tables.insert_notice pi_watch.Store.Tables.insert_result latest_of
    pi_watch.Store.Tables.update_job_state pi_watch.Store.Transaction.body_phase
    pi_watch.Store.Transaction.commit_phase pi_watch.Store.Transaction.rethrow
    pi_watch.Store.Transaction.wrap_sqlite_error
cancelled_life-notices = (refl, refl)

notices_fenced_example :
    let db = (run plain cancelled_life new_store).db in
    (acknowledge_notice 50 stranger job 1 db ≡ err no_notice)
    × (list_notices (string stranger) job db ≡ ok [])
notices_fenced_example =
    notices_fenced plain cancelled_life 50 stranger job 1 stranger_valid cancelled_life-notices.1
