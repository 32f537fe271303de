-- ===== src/Runner/Grants.antt =====
-- src/runner.ts: when the guardian is told to start the shell.
use pi_watch.Base.{ℕ, suc, ◌≤◌, Bool, true, false, Option, List, [], ◌∷◌, ◌≡◌, refl, arith}
use pi_watch.Output.Page.{CaptureStream, standard_output, standard_error}
use pi_watch.Guardian.Protocol.{GuardianMessage}
use pi_watch.Store.Launch.{LaunchDisposition}
use pi_watch.Runner.Machine.{
  Runner, Effect, Publication, AttachedCapture, claimed, close, abandon, publish_spawn_failure,
  begin_cutover, begin_budget, freeze_and_publish,
}
use pi_watch.Runner.Machine
use pi_watch.Runner.Handlers.{
  Grounds, Observed, decided, decision_answered, send_grant, message_heard, guardian_lost,
  guardian_exited, readiness_fired, captures_sealed, staging_gone, publish_next, publish_answered,
  on_data, on_end, on_error,
}
use pi_watch.Runner.Run.{Event, step, run}
use pi_watch.Runner.Run

abbrev pub grants : List Effect → ℕ
grants [] = 0
grants (Machine.granted ∷ log) = suc (grants log)
grants (_ ∷ log) = grants log

abbrev pub authorizations : List Effect → ℕ
authorizations [] = 0
authorizations (Machine.authorized ∷ log) = suc (authorizations log)
authorizations (_ ∷ log) = authorizations log

-- The runner has closed or is done: nothing that it says can start a shell any more.
abbrev pub is_over : List Effect → Bool
is_over [] = false
is_over (Machine.shut_down ∷ log) = true
is_over (Machine.staging_discarded ∷ log) = true
is_over (Machine.froze now ∷ log) = true
is_over (_ ∷ log) = is_over log

-- Each grant answers an authorization of its own, and comes before the end.
abbrev pub GrantsAuthorized : List Effect → Type 0
GrantsAuthorized [] = Unit
GrantsAuthorized (Machine.granted ∷ log) =
    (suc (grants log) ≤ authorizations log) × (is_over log ≡ false) × GrantsAuthorized log
GrantsAuthorized (_ ∷ log) = GrantsAuthorized log

record IsGranting (r : Runner) : Type 0 where
  authorized : GrantsAuthorized r.log
  fewer : grants r.log ≤ authorizations r.log
  first : r.grant_sent ≡ false → grants r.log ≡ 0
  one : grants r.log ≤ 1
  ended : is_over r.log ≡ true → r.stopping ≡ true

close-IsGranting : (r : Runner) → IsGranting r → IsGranting (close r)
unfolding close
close-IsGranting r s = ground (arith, s)

abandon-IsGranting : (r : Runner) → IsGranting r → IsGranting (abandon r)
unfolding abandon close
abandon-IsGranting r s = ground (arith, s)

publish_spawn_failure-IsGranting :
    (r : Runner) → IsGranting r → IsGranting (publish_spawn_failure r)
unfolding publish_spawn_failure
publish_spawn_failure-IsGranting r s = ground (arith, s)

begin_cutover-IsGranting : (now : ℕ) (r : Runner) → IsGranting r → IsGranting (begin_cutover now r)
unfolding begin_cutover
begin_cutover-IsGranting now r s = ground (arith, s)

freeze_and_publish-IsGranting :
    (now : ℕ) (r : Runner) → IsGranting r → IsGranting (freeze_and_publish now r)
unfolding freeze_and_publish
freeze_and_publish-IsGranting now r s = ground (arith, s)

decided-IsGranting :
    (answer : Option LaunchDisposition) (grounds : Grounds) (r : Runner)
    → IsGranting r
    → IsGranting (decided answer grounds r)
unfolding decided decision_answered send_grant close abandon begin_cutover
decided-IsGranting answer grounds r s = ground (arith, s)

message_heard-IsGranting :
    (message : GuardianMessage) (r : Runner) → IsGranting r → IsGranting (message_heard message r)
unfolding message_heard publish_spawn_failure begin_budget
message_heard-IsGranting message r s = ground (arith, s)

guardian_lost-IsGranting : (now : ℕ) (r : Runner) → IsGranting r → IsGranting (guardian_lost now r)
unfolding guardian_lost publish_spawn_failure begin_cutover abandon close
guardian_lost-IsGranting now r s = ground (arith, s)

guardian_exited-IsGranting :
    (now : ℕ) (r : Runner) → IsGranting r → IsGranting (guardian_exited now r)
unfolding guardian_exited publish_spawn_failure begin_cutover abandon close
guardian_exited-IsGranting now r s = ground (arith, s)

publish_next-IsGranting : (r : Runner) → IsGranting r → IsGranting (publish_next r)
unfolding publish_next close
publish_next-IsGranting r s = ground (arith, s)

publish_answered-IsGranting :
    (answer : Option ℕ) (seen : Option Observed) (r : Runner)
    → IsGranting r
    → IsGranting (publish_answered answer seen r)
unfolding publish_answered close
publish_answered-IsGranting answer seen r s = ground (arith, s)

on_data-IsGranting :
    (stream : CaptureStream) (chunk : List ℕ) (r : Runner)
    → IsGranting r
    → IsGranting (on_data stream chunk r)
unfolding on_data
on_data-IsGranting stream chunk r s = ground (arith, s)

on_end-IsGranting :
    (stream : CaptureStream) (r : Runner) → IsGranting r → IsGranting (on_end stream r)
unfolding on_end
on_end-IsGranting standard_output r s = ground (arith, s)
on_end-IsGranting standard_error r s = ground (arith, s)

on_error-IsGranting :
    (stream : CaptureStream) (r : Runner) → IsGranting r → IsGranting (on_error stream r)
unfolding on_error
on_error-IsGranting standard_output r s = ground (arith, s)
on_error-IsGranting standard_error r s = ground (arith, s)

step-IsGranting : (e : Event) (r : Runner) → IsGranting r → IsGranting (step e r)
unfolding step readiness_fired begin_budget staging_gone captures_sealed
step-IsGranting Run.utilities_missing r s = publish_spawn_failure-IsGranting r s
step-IsGranting (Run.heard message) r s = message_heard-IsGranting message r s
step-IsGranting (Run.decision answer grounds) r s = decided-IsGranting answer grounds r s
step-IsGranting (Run.send_failed now) r s = begin_cutover-IsGranting now r s
step-IsGranting (Run.budget_over now) r s = ground (arith, s, begin_cutover-IsGranting now r s)
step-IsGranting (Run.cutover_over now) r s = freeze_and_publish-IsGranting now r s
step-IsGranting (Run.guardian_gone now) r s = guardian_lost-IsGranting now r s
step-IsGranting (Run.guardian_ended now) r s = guardian_exited-IsGranting now r s
step-IsGranting Run.readiness_over r s = ground (arith, s, publish_spawn_failure-IsGranting r s)
step-IsGranting Run.deadline_over r s = ground (arith, s)
step-IsGranting Run.staging_done r s = ground (arith, s)
step-IsGranting Run.next_task r s = publish_next-IsGranting r s
step-IsGranting (Run.sealed output error) r s = ground (arith, s)
step-IsGranting (Run.task_answered answer seen) r s = publish_answered-IsGranting answer seen r s
step-IsGranting (Run.data_read stream chunk) r s = on_data-IsGranting stream chunk r s
step-IsGranting (Run.stream_ended stream) r s = on_end-IsGranting stream r s
step-IsGranting (Run.stream_failed stream) r s = on_error-IsGranting stream r s

run-IsGranting : (events : List Event) (r : Runner) → IsGranting r → IsGranting (run events r)
unfolding run
run-IsGranting [] r s = s
run-IsGranting (e ∷ events) r s = run-IsGranting events (step e r) (step-IsGranting e r s)

claimed-IsGranting : IsGranting claimed
claimed-IsGranting = record {
  authorized = tt;
  fewer = omega arith;
  first = λ h. refl;
  one = omega arith;
  ended = λ h. ground (arith, h);
}

-- Whatever events reach a runner, it grants at most once, only after an authorization of the store
-- that it has not used, and never after it has begun to publish a failure or the end, or has closed.
pub run-GrantsAuthorized :
    (events : List Event)
    → let log = (run events claimed).log in (grants log ≤ 1) × GrantsAuthorized log
run-GrantsAuthorized events =
    let s = run-IsGranting events claimed claimed-IsGranting in (s.one, s.authorized)
