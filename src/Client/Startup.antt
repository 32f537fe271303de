-- ===== src/Client/Startup.antt =====
-- src/store-client.ts: the start of the worker, from `failStartup` to the promise `startup`.
use Prim.Native.String.{String}
use pi_watch.Base.{Option, none, some, List, [], ◌∷◌, ◌≡◌, refl, arith}
use pi_watch.JobTypes.Errors.{
  StoreErrorCode, schema_too_new, runtime_unsupported, store_unavailable, StoreDiagnostic,
}
use pi_watch.JobTypes.Errors
use pi_watch.Client.Wire.{kept_code, client_message}

-- A `StoreError`: its code and its message.
abbrev pub Failure : Type 0
Failure = StoreErrorCode × String

-- `startupCleanupFailure`
unfoldable pub startup_cleanup_failure : Failure → Failure
startup_cleanup_failure (Errors.schema_too_new, message) =
    (schema_too_new, "Store schema is newer; update pi-watch; startup cleanup was not confirmed.")
startup_cleanup_failure (Errors.runtime_unsupported, message) =
    (runtime_unsupported, "Runtime is unsupported by pi-watch; startup cleanup was not confirmed.")
startup_cleanup_failure (code, message) = (code, "Store startup failed; cleanup was not confirmed.")

-- How `worker.terminate()` ended in its race with the timer.
pub data Termination : Type 0 where
  fulfilled failed timed_out : Termination

pub data Signal : Type 0 where
  ready_message : Signal
  init_error : StoreDiagnostic → Signal
  worker_failed stopped_early failed_to_start startup_timeout observer_threw : Signal
  terminated : Termination → Signal

pub data Startup : Type 0 where
  waiting ready : Startup
  cleaning rejected : Failure → Startup

-- The error that a signal fails the start with; `none` for the signals that do not.
unfoldable pub failure_of : Signal → Option Failure
failure_of ready_message = none
failure_of (init_error diagnostic) =
    let code = kept_code diagnostic.code in some (code, client_message code)
failure_of worker_failed = some (store_unavailable, "Store worker failed to start.")
failure_of stopped_early = some (store_unavailable, "Store worker stopped before it was ready.")
failure_of failed_to_start = some (store_unavailable, "Store worker failed to start.")
failure_of startup_timeout = some (store_unavailable, "Store worker did not start in time.")
failure_of observer_threw = some (store_unavailable, "Store worker startup failed.")
failure_of (terminated outcome) = none

-- The end of `terminateFailedStartup`.
unfoldable pub reject : Termination → Failure → Failure
unfolding startup_cleanup_failure
reject fulfilled error = error
reject failed error = startup_cleanup_failure error
reject timed_out error = startup_cleanup_failure error

abbrev fail_startup : Option Failure → Startup
fail_startup none = waiting
fail_startup (some error) = cleaning error

unfoldable pub step : Signal → Startup → Startup
step ready_message waiting = ready
step signal waiting = fail_startup (failure_of signal)
step (terminated outcome) (cleaning error) = rejected (reject outcome error)
step _ (cleaning error) = cleaning error
step _ ready = ready
step _ (rejected error) = rejected error

unfoldable pub run : List Signal → Startup → Startup
run [] s = s
run (signal ∷ signals) s = run signals (step signal s)

-- What the signals say, read independently: the first that matters decides.
pub data Verdict : Type 0 where
  undecided started : Verdict
  doomed : Failure → Option Termination → Verdict

abbrev pub first_termination : List Signal → Option Termination
first_termination [] = none
first_termination (terminated outcome ∷ signals) = some outcome
first_termination (_ ∷ signals) = first_termination signals

abbrev pub verdict : List Signal → Verdict
verdict [] = undecided
verdict (ready_message ∷ signals) = started
verdict (signal ∷ signals) = elim (failure_of signal) [
  | none ↦ verdict signals
  | some error ↦ doomed error (first_termination signals)
]

abbrev pub startup_of : Verdict → Startup
startup_of undecided = waiting
startup_of started = ready
startup_of (doomed error none) = cleaning error
startup_of (doomed error (some outcome)) = rejected (reject outcome error)

run-ready : (signals : List Signal) → run signals ready ≡ ready
unfolding run step
run-ready [] = refl
run-ready (signal ∷ signals) = ground (arith, run-ready signals)

run-rejected :
    (signals : List Signal) (error : Failure) → run signals (rejected error) ≡ rejected error
unfolding run step
run-rejected [] error = refl
run-rejected (signal ∷ signals) error = ground (arith, run-rejected signals error)

run-cleaning :
    (signals : List Signal) (error : Failure)
    → run signals (cleaning error) ≡ startup_of (doomed error (first_termination signals))
unfolding run step
run-cleaning [] error = refl
run-cleaning (terminated outcome ∷ signals) error = run-rejected signals (reject outcome error)
run-cleaning (ready_message ∷ signals) error = run-cleaning signals error
run-cleaning (init_error diagnostic ∷ signals) error = run-cleaning signals error
run-cleaning (worker_failed ∷ signals) error = run-cleaning signals error
run-cleaning (stopped_early ∷ signals) error = run-cleaning signals error
run-cleaning (failed_to_start ∷ signals) error = run-cleaning signals error
run-cleaning (startup_timeout ∷ signals) error = run-cleaning signals error
run-cleaning (observer_threw ∷ signals) error = run-cleaning signals error

-- Whatever signals arrive, the start succeeds exactly if the first that matters is `ready`;
-- otherwise it fails with the error of the first failure, once the termination of the worker has
-- ended, and with the message of an unconfirmed cleanup if that did not succeed.
pub run-verdict : (signals : List Signal) → run signals waiting ≡ startup_of (verdict signals)
unfolding run step failure_of
run-verdict [] = refl
run-verdict (ready_message ∷ signals) = run-ready signals
run-verdict (terminated outcome ∷ signals) = run-verdict signals
run-verdict (init_error diagnostic ∷ signals) = run-cleaning signals _
run-verdict (worker_failed ∷ signals) = run-cleaning signals _
run-verdict (stopped_early ∷ signals) = run-cleaning signals _
run-verdict (failed_to_start ∷ signals) = run-cleaning signals _
run-verdict (startup_timeout ∷ signals) = run-cleaning signals _
run-verdict (observer_threw ∷ signals) = run-cleaning signals _
