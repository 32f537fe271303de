-- ===== src/Tests/Progress.antt =====
-- A claimed job, and the theorems about operations that cannot fail at it.
use pi_watch.Base.{
  ◌+◌, Text, text, text_eq, text_eq→eq, text_eq_refl, true, false, none, some, ◌≡◌, refl, arith,
  Bool-cases, inl, inr,
}
use pi_watch.JobTypes.Errors.{ok, err}
use pi_watch.Evidence.Coherent.{initial_evidence-IsCoherent}
use pi_watch.Evidence.Defs.{initial_evidence}
use pi_watch.Store.Tables.{Db, find_job, find_owned, get_job_row, latest_of}
use pi_watch.Store.Rows.{row_to_job, row_to_control}
use pi_watch.Store.Launch.{
  LaunchDecisionResult, latest_evidence, decide_launch, assert_runner_token, matches_token,
}
use pi_watch.Store.Publish.{ResultRecord, publish_uncertain_result}
use pi_watch.Store.Read.{JobObservation, observe}
use pi_watch.Store.View.{view}
use pi_watch.Store.Life.Sound.{IsSound}
use pi_watch.Store.Run.{IsSoundDb}
use pi_watch.Store.Progress.Reconcile.{
  outrun, already_produced, witness_of, is_used, publish_uncertain_result-observe,
}
use pi_watch.Store.Progress.Decide.{decide_launch-total}
use pi_watch.Tests.Store.{plain, owner, job, token, claimed_row, claimed_db}

claimed-IsSound : IsSound (view job claimed_db)
unfolding find_job text_eq latest_of latest_evidence
claimed-IsSound = record {
  numbered = tt;
  coherent = initial_evidence-IsCoherent;
  rules = ((refl, refl, λ h. ground arith), refl, refl, refl);
  announced = tt;
}

absent-IsSound : (id : Text) → text_eq id job ≡ false → IsSound (view id claimed_db)
unfolding find_job latest_of latest_evidence
absent-IsSound id h = record {
  numbered = tt;
  coherent = initial_evidence-IsCoherent;
  rules = ground (arith, h, text_eq→eq job id, text_eq_refl job);
  announced = tt;
}

claimed_db-IsSoundDb : IsSoundDb claimed_db
unfolding find_job
claimed_db-IsSoundDb = record {
  distinct = (refl, tt);
  sound = λ id. elim (Bool-cases (text_eq id job)) [
    | inl same ↦ rw (text_eq→eq id job same) claimed-IsSound
    | inr other ↦ absent-IsSound id other
  ];
}

found : get_job_row job owner claimed_db ≡ ok claimed_row
unfolding get_job_row find_owned text_eq
found = refl

capable : assert_runner_token plain claimed_row (some token) ≡ ok tt
unfolding assert_runner_token matches_token text_eq
capable = refl

decide_launch-total_example :
    (answer : LaunchDecisionResult × Db) × (decide_launch plain 30 owner job
        (text "c1")
        (some token)
        claimed_db
      ≡ ok answer)
unfolding text_eq
decide_launch-total_example =
    decide_launch-total plain 30 owner job (text "c1") (some token) claimed_db claimed_db-IsSoundDb
      found capable refl

abbrev observation : JobObservation
observation = record {
  job = row_to_job claimed_row;
  claim_id = some (text "c1");
  heartbeat_counter = 0;
  latest_revision = 0;
  finalized = false;
  evidence = initial_evidence;
  control = record {
    cancellation_requested_at_ms = none;
    launch_decision = none;
    decided_at_ms = none;
  };
}

observed_claimed : observe owner job claimed_db ≡ ok observation
unfolding observe get_job_row find_owned text_eq row_to_control latest_of latest_evidence
observed_claimed = refl

publish_uncertain_result-observe_example :
    (published : ResultRecord) × (db' : Db) × (next : JobObservation) × (publish_uncertain_result 50
        owner job
        (witness_of observation)
        claimed_db
      ≡ ok (published, db'))
    × (published.revision ≡ 0 + 1)
    × (published.evidence ≡ record initial_evidence { uncertain = true; finalized = false })
    × (is_used (witness_of observation) job db' ≡ true)
    × (publish_uncertain_result 60 owner job (witness_of observation) db' ≡ err outrun)
    × (observe owner job db' ≡ ok next)
    × (next.latest_revision ≡ published.revision)
    × (publish_uncertain_result 60 owner job (witness_of next) db' ≡ err already_produced)
publish_uncertain_result-observe_example =
    publish_uncertain_result-observe 50 60 owner job claimed_db claimed_db-IsSoundDb
      observed_claimed refl refl
