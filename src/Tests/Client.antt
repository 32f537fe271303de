-- ===== src/Tests/Client.antt =====
-- A client with a reservation and a cancellation under way, and the theorems about clients at it.
use pi_watch.Base.{ℕ, ◌≤◌, text, true, false, none, some, List, [], ◌∷◌, ◌≡◌, refl, arith}
use pi_watch.JobTypes.Errors.{
  store_error, foreign_error, store_unavailable, ok, err, to_diagnostic, diagnose,
}
use pi_watch.Client.Wire.{
  worker_reply, client_result, client_error, store_error_from_diagnostic, client_message,
}
use pi_watch.Client.Requests.{
  Client, Op, Event, closed, exited_unexpectedly, new_client, request, run, step, on_reply,
  fail_all, find_pending, entry_of, loss_error,
}
use pi_watch.Client.Requests
use pi_watch.Client.Settle.{
  waits, settles, outcome_of, lost_answer, IsClient, request-settles, fail_all-lost_answer,
}
use pi_watch.Client.Startup.{
  Signal, timed_out, worker_failed, ready_message, terminated, waiting, rejected, verdict,
  startup_of, run-verdict, failure_of, reject, startup_cleanup_failure,
}
use pi_watch.Client.Startup

abbrev asked_both : Client ℕ
asked_both = record {
  next_id = 3;
  pending =
      (1, record { candidate = some (text "id"); unknown_on_worker_loss = false })
      ∷ (2, record { candidate = none; unknown_on_worker_loss = true })
      ∷ [];
  worker_failed = false;
  settled = [];
}

abbrev two_requests : List (Event ℕ)
two_requests =
    Requests.asked (Requests.reserve (text "id")) true
    ∷ Requests.asked Requests.request_cancellation true
    ∷ []

asked_both_reached : run two_requests new_client ≡ asked_both
unfolding run step request entry_of
asked_both_reached = refl

asked_both-IsClient : IsClient asked_both
asked_both-IsClient = record {
  once = λ id. ground arith;
  fresh = λ id new. (ground (arith, new), refl);
}

abbrev answer : List (Event ℕ)
answer = Requests.replied 1 (worker_reply (ok 5)) ∷ []

asked_third : (request {A = ℕ} Requests.list_jobs true asked_both).0 ≡ ok 3
unfolding request
asked_third = refl

request-settles_example :
    let last = run answer (request Requests.list_jobs true asked_both).1 in
    (settles 3 last.settled ≤ 1)
    × (settles 3 (fail_all closed last).settled ≡ 1)
    × (waits 3 (fail_all closed last).pending ≡ 0)
request-settles_example =
    request-settles Requests.list_jobs true asked_both answer closed asked_both-IsClient asked_third

cancellation_waits :
    find_pending 2 asked_both.pending ≡ some (entry_of Requests.request_cancellation)
unfolding entry_of
cancellation_waits = refl

fail_all-lost_answer_example :
    let next = fail_all exited_unexpectedly asked_both in
    (outcome_of 2 next.settled
      ≡ some (err (lost_answer exited_unexpectedly Requests.request_cancellation)))
    × (request Requests.get_job true next
        ≡ (err (store_error store_unavailable "Store worker has stopped."), next))
fail_all-lost_answer_example =
    fail_all-lost_answer exited_unexpectedly asked_both 2 Requests.request_cancellation
      Requests.get_job true cancellation_waits

-- The text of a foreign error stays in the worker.
foreign_answer :
    client_result {A = ℕ} none (worker_reply (err (foreign_error "/home/user")))
    ≡ err (store_error store_unavailable "Store is unavailable.")
unfolding client_result client_error worker_reply to_diagnostic diagnose store_error_from_diagnostic
    client_message
foreign_answer = refl

abbrev failed_start : List Signal
failed_start = worker_failed ∷ ready_message ∷ terminated timed_out ∷ []

failed_start_message :
    Startup.run failed_start waiting
    ≡ rejected (store_unavailable, "Store startup failed; cleanup was not confirmed.")
unfolding Startup.run Startup.step failure_of reject startup_cleanup_failure
failed_start_message = refl

run-verdict_example : Startup.run failed_start waiting ≡ startup_of (verdict failed_start)
run-verdict_example = run-verdict failed_start
