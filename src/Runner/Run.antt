-- ===== src/Runner/Run.antt =====
-- src/runner.ts: the events that reach a runner with its claim, in any order.
use pi_watch.Base.{ℕ, Option, List, [], ◌∷◌, if◌then◌else◌}
use pi_watch.Output.Page.{CaptureStream}
use pi_watch.Capture.Machine.{CaptureResult}
use pi_watch.Guardian.Protocol.{GuardianMessage}
use pi_watch.Store.Launch.{LaunchDisposition}
use pi_watch.Runner.Machine.{
  Runner, publish_spawn_failure, begin_cutover, begin_budget, freeze_and_publish,
}
use pi_watch.Runner.Handlers.{
  Grounds, Observed, decided, message_heard, guardian_lost, guardian_exited, readiness_fired,
  captures_sealed, staging_gone, publish_next, publish_answered, on_data, on_end, on_error,
}

-- An event, with what its handler reads from the clock and what the calls that it waits for answer.
pub data Event : Type 0 where
  utilities_missing : Event
  heard : GuardianMessage → Event
  decision : Option LaunchDisposition → Grounds → Event
  send_failed budget_over cutover_over guardian_gone guardian_ended : ℕ → Event
  readiness_over deadline_over staging_done next_task : Event
  sealed : CaptureResult → CaptureResult → Event
  task_answered : Option ℕ → Option Observed → Event
  data_read : CaptureStream → List ℕ → Event
  stream_ended stream_failed : CaptureStream → Event

unfoldable pub step : Event → Runner → Runner
step utilities_missing r = publish_spawn_failure r
step (heard message) r = message_heard message r
step (decision answer grounds) r = decided answer grounds r
step (send_failed now) r = begin_cutover now r
step (budget_over now) r = if r.budget_begun then begin_cutover now r else r
step (cutover_over now) r = freeze_and_publish now r
step (guardian_gone now) r = guardian_lost now r
step (guardian_ended now) r = guardian_exited now r
step readiness_over r = readiness_fired r
step deadline_over r = begin_budget r
step staging_done r = staging_gone r
step next_task r = publish_next r
step (sealed output error) r = captures_sealed output error r
step (task_answered answer seen) r = publish_answered answer seen r
step (data_read stream chunk) r = on_data stream chunk r
step (stream_ended stream) r = on_end stream r
step (stream_failed stream) r = on_error stream r

unfoldable pub run : List Event → Runner → Runner
run [] r = r
run (e ∷ events) r = run events (step e r)
