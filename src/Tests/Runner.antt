-- ===== src/Tests/Runner.antt =====
-- A runner from its claim to the final publication, and the theorems about runners at it.
use pi_watch.Base.{◌≤◌, pos, true, false, none, some, List, [], ◌∷◌, ◌++◌, ◌≡◌, refl}
use pi_watch.Evidence.Defs.{unknown}
use pi_watch.Evidence.Defs
use pi_watch.Output.Page.{standard_output, standard_error}
use pi_watch.Capture.Machine.{CaptureResult}
use pi_watch.Guardian.Protocol.{topology, shell_started, shell_exit}
use pi_watch.Store.Launch.{authorized_now, already_decided}
use pi_watch.Runner.Machine.{
  Runner, claimed, close, abandon, begin_cutover, begin_budget, freeze_and_publish,
}
use pi_watch.Runner.Handlers.{
  Grounds, decided, decision_answered, send_grant, message_heard, captures_sealed, publish_next,
  publish_answered, on_data, on_error,
}
use pi_watch.Runner.Run.{Event, step, run}
use pi_watch.Runner.Run
use pi_watch.Runner.Grants.{grants, GrantsAuthorized, run-GrantsAuthorized}
use pi_watch.Runner.Endings.{has_failed, is_asked, finals, freezes}

abbrev grounds : Grounds
grounds = record { workspace = true; connected = true; sends = true; now = 10 }

abbrev kept : CaptureResult
kept = record {
  available = true;
  truncated = false;
  incomplete = false;
  open_at_cutover = false;
  retained_bytes = 1;
  drained_bytes = 1;
  receipt = none;
  telemetry = record {
    max_pending_writes = 1;
    max_buffers = 1;
    max_reserved_bytes = 1;
    accept_callbacks = 1;
    pump_starts = 1;
    write_attempts = 1;
  };
}

abbrev started_job : List Event
started_job =
    Run.heard (topology true)
    ∷ Run.decision (some authorized_now) grounds
    ∷ Run.heard (shell_started 11)
    ∷ Run.next_task
    ∷ Run.task_answered (some 1) none
    ∷ []

abbrev ended_job : List Event
ended_job =
    Run.data_read standard_output (65 ∷ [])
    ∷ Run.heard (shell_exit (some (pos 0)) none)
    ∷ Run.budget_over 7000
    ∷ Run.cutover_over 8000
    ∷ Run.data_read standard_output (66 ∷ [])
    ∷ Run.sealed kept kept
    ∷ Run.next_task
    ∷ Run.task_answered (some 2) none
    ∷ []

abbrev at_end : Runner
at_end = run ended_job (run started_job claimed)

granted_once : grants at_end.log ≡ 1
unfolding run step message_heard decided decision_answered send_grant publish_next publish_answered
    on_data begin_budget begin_cutover freeze_and_publish captures_sealed close
granted_once = refl

published_once : (finals at_end.log ≡ 1) × (freezes at_end.log ≡ 1) × (at_end.is_closed ≡ true)
unfolding run step message_heard decided decision_answered send_grant publish_next publish_answered
    on_data begin_budget begin_cutover freeze_and_publish captures_sealed close
published_once = (refl, refl, refl)

-- A runner that is not the first to decide grants nothing.
refused_job :
    grants
      (run
        (Run.heard (topology true) ∷ Run.decision (some already_decided) grounds ∷ [])
        claimed).log
    ≡ 0
unfolding run step message_heard decided decision_answered abandon close
refused_job = refl

run-GrantsAuthorized_example :
    let log = (run started_job claimed).log in (grants log ≤ 1) × GrantsAuthorized log
run-GrantsAuthorized_example = run-GrantsAuthorized started_job

-- A stream fails before the freeze, which tells its capture once more.
abbrev failed_job : List Event
failed_job = started_job ++ (Run.stream_failed standard_error ∷ ended_job)

failed_again :
    let log = (run failed_job claimed).log in
    (has_failed standard_error log ≡ true)
    × (has_failed standard_output log ≡ false)
    × (is_asked standard_output log ≡ true)
    × (is_asked standard_error log ≡ true)
unfolding run step message_heard decided decision_answered send_grant publish_next publish_answered
    on_data on_error begin_budget begin_cutover freeze_and_publish captures_sealed close
failed_again = (refl, refl, refl, refl)

abbrev heard_exit : Runner
heard_exit = record claimed { launched_seen = true; shell_code = some (pos 0) }
