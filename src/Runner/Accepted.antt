-- ===== src/Runner/Accepted.antt =====
-- src/runner.ts against src/store-evidence.ts: what a runner publishes is an observation that the
-- store merges.
use pi_watch.Base.{
  Bool, true, false, not, ◌&&◌, ◌||◌, Option, some, is_some, ◌≡◌, refl, if◌then◌else◌,
}
use pi_watch.JobTypes.Errors.{ok}
use pi_watch.Evidence.Defs.{
  ExecutionEvidence, StreamCaptureFacts, initial_evidence, launched, unconfirmed, not_requested,
  not_required, spawn_failed, CleanupState,
}
use pi_watch.Evidence.Merge.{
  merge_evidence, merge_outcome, merge_launch, merge_known, merge_cleanup, merge_cleanup_facts,
  merge_flag, merge_stream,
}
use pi_watch.Capture.Machine.{CaptureResult}
use pi_watch.Runner.Machine.{Runner, AttachedCapture, has_output, has_ended, launch_evidence}

-- What the store knows of a job when its runner publishes the end: nothing, or the launch, which
-- `publishResult` stores as uncertain (`uncertain: !finalized`).
abbrev pub launched_evidence : ExecutionEvidence
launched_evidence = record initial_evidence { launch = launched; uncertain = true }

abbrev pub last_known : Bool → ExecutionEvidence
last_known true = launched_evidence
last_known false = initial_evidence

merge_launch_evidence :
    merge_evidence initial_evidence launch_evidence true false ≡ ok launched_evidence
unfolding merge_evidence merge_outcome merge_launch merge_known merge_cleanup merge_cleanup_facts
    merge_flag merge_stream
merge_launch_evidence = refl

abbrev stream_snapshot : Bool → Bool → Bool → Bool → StreamCaptureFacts
stream_snapshot available truncated incomplete open_at_cutover = record {
  available = some available;
  truncated = truncated;
  incomplete = incomplete;
  open_at_cutover = open_at_cutover;
}

-- The facts of a stream that the snapshot gets.
abbrev told_of : Bool → Option AttachedCapture → CaptureResult → StreamCaptureFacts
told_of setup_failed attached result =
    if has_output attached && not setup_failed
    then stream_snapshot result.available result.truncated result.incomplete result.open_at_cutover
    else stream_snapshot false false true (not (has_ended attached))

-- What the runner says of the cleanup.
abbrev pub cleanup_told : Runner → CleanupState
cleanup_told r =
    if r.launched_seen || r.deadline_observed || is_some r.term || r.kill_intent
    then unconfirmed
    else not_requested

-- The snapshot of a job whose shell could not be started.
abbrev pub failed_evidence : Runner → ExecutionEvidence
failed_evidence r = record initial_evidence {
  launch = spawn_failed;
  cleanup_state = not_required;
  deadline_trigger_observed = r.deadline_observed;
  stdout = stream_snapshot false false false false;
  stderr = stream_snapshot false false false false;
  uncertain = false;
  finalized = true;
}
