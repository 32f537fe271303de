-- ===== src/Evidence/Merge.antt =====
-- src/store-evidence.ts: `mergeEvidence` and `mergeStream`. Each field has a function of its own;
-- `merge_evidence` runs them in the source's order, and the first contradiction is thrown.
use Prim.Native.String.{String}
use pi_watch.Base.{
  ℤ, int_eq, Text, text_eq, Bool, not, ◌&&◌, ◌||◌, Option, none, some, is_some, if◌then◌else◌, ltb,
  bool_eq,
}
use pi_watch.JobTypes.Errors.{
  Thrown, store_error, validation_failed, Result, ok, err, ◌>>=◌, ◌>>◌, throw_if,
}
use pi_watch.Evidence.Defs.{
  LaunchPhase, launch_eq, CleanupState, cleanup_eq, cleanup_order, CleanupTermObservation, term_eq,
  StreamCaptureFacts, ExecutionEvidence, StreamInput, EvidenceInput, is_non_execution,
}
use pi_watch.Evidence.Defs

abbrev pub validation_error : String → Thrown
validation_error message = store_error validation_failed message

-- An observation may state a known launch phase again, and replaces only `unknown`.
unfoldable pub merge_launch : LaunchPhase → Option LaunchPhase → Result LaunchPhase
merge_launch prior none = ok prior
merge_launch prior (some launch) =
    if not (launch_eq prior Defs.unknown) && not (launch_eq prior launch)
    then err (validation_error "Launch phase contradicts the established fact.")
    else ok launch

-- The rule that shell code, shell signal, TERM receipt and availability share: what is known
-- can neither be erased nor changed.
unfoldable pub merge_known {ℓ} :
    {A : Type ℓ} → (A → A → Bool) → String → Option A → Option (Option A) → Result (Option A)
merge_known eq message prior none = ok prior
merge_known eq message none (some observed) = ok observed
merge_known eq message (some a) (some none) = err (validation_error message)
merge_known eq message (some a) (some (some b)) =
    if eq a b then ok (some b) else err (validation_error message)

-- The cleanup state, given the launch phase after the merge.
unfoldable pub merge_cleanup :
    LaunchPhase → CleanupState → Option CleanupState → Result CleanupState
merge_cleanup launch prior none =
    if cleanup_eq prior Defs.not_required
      && (not (launch_eq launch Defs.unknown) && not (is_non_execution launch))
    then err (validation_error "Cleanup not_required requires established non-execution.")
    else ok prior
merge_cleanup launch prior (some state) =
    if cleanup_eq state prior
    then (if cleanup_eq prior Defs.not_required
          && (not (launch_eq launch Defs.unknown) && not (is_non_execution launch))
        then err (validation_error "Cleanup not_required requires established non-execution.")
        else ok prior)
    else (if cleanup_eq prior Defs.not_required
        then err (validation_error "Cleanup not_required is established and cannot change.")
        else (if cleanup_eq state Defs.not_required
            then (if not (is_non_execution launch) || not (cleanup_eq prior Defs.not_requested)
                then err
                    (validation_error "Cleanup not_required requires established non-execution.")
                else ok state)
            else (if ltb (cleanup_order state) (cleanup_order prior)
                then err
                    (validation_error "Cleanup state cannot regress to a less certain observation.")
                else ok state)))

-- A flag that an observation can raise and never lowers.
abbrev pub raise_flag : Bool → Option Bool → Bool
raise_flag prior none = prior
raise_flag prior (some observed) = prior || observed

-- A flag that an observation can raise, and whose retraction is refused.
unfoldable pub merge_flag : String → Bool → Option Bool → Result Bool
merge_flag message prior none = ok prior
merge_flag message prior (some observed) =
    if not observed && prior then err (validation_error message) else ok observed

-- `mergeStream`
unfoldable pub merge_stream : StreamCaptureFacts → Option StreamInput → Result StreamCaptureFacts
merge_stream target none = ok target
merge_stream target (some input) = do
  available ←
      merge_known bool_eq "Capture availability contradicts the established fact." target.available
        input.available
  incomplete ←
      merge_flag "Capture incompleteness is established and cannot be retracted." target.incomplete
        input.incomplete
  open_at_cutover ←
      merge_flag "Open-at-cutover is established and cannot be retracted." target.open_at_cutover
        input.open_at_cutover
  ok (record {
    available = available;
    truncated = raise_flag target.truncated input.truncated;
    incomplete = incomplete;
    open_at_cutover = open_at_cutover;
  })

-- Launch phase and shell outcome, with the two rules that relate them.
pub record Outcome : Type 0 where
  pub launch : LaunchPhase
  pub code : Option ℤ
  pub signal : Option Text

unfoldable pub merge_outcome : ExecutionEvidence → EvidenceInput → Result Outcome
merge_outcome prior input = do
  launch ← merge_launch prior.launch input.launch
  code ←
      merge_known int_eq "Shell code contradicts the established outcome." prior.shell_code
        input.shell_code
  signal ←
      merge_known text_eq "Shell signal contradicts the established outcome." prior.shell_signal
        input.shell_signal
  throw_if (is_some code && is_some signal)
      (validation_error "Shell code and shell signal cannot both be established.")
  throw_if (is_non_execution launch && (is_some code || is_some signal))
      (validation_error "Non-execution launch cannot have a shell outcome established.")
  ok (record { launch = launch; code = code; signal = signal })

-- The cleanup state with its attempt evidence, given the launch phase after the merge.
pub record Cleanup : Type 0 where
  pub state : CleanupState
  pub term : Option CleanupTermObservation
  pub kill : Bool

unfoldable pub merge_cleanup_facts :
    LaunchPhase → ExecutionEvidence → EvidenceInput → Result Cleanup
merge_cleanup_facts launch prior input = do
  state ← merge_cleanup launch prior.cleanup_state input.cleanup_state
  term ←
      merge_known term_eq "Cleanup TERM receipt contradicts the established fact."
        prior.cleanup_term_observation input.cleanup_term_observation
  let kill = raise_flag prior.cleanup_kill_intent_observed input.cleanup_kill_intent_observed
  throw_if (cleanup_eq state Defs.not_required && (is_some term || kill))
      (validation_error "Cleanup not_required cannot have cleanup attempt evidence.")
  ok (record { state = state; term = term; kill = kill })

-- `mergeEvidence`; the last two arguments are `options.uncertain` and `options.finalized`.
unfoldable pub merge_evidence :
    ExecutionEvidence → EvidenceInput → Bool → Bool → Result ExecutionEvidence
merge_evidence prior input uncertain finalized = do
  outcome ← merge_outcome prior input
  cleanup ← merge_cleanup_facts outcome.launch prior input
  stdout ← merge_stream prior.stdout input.stdout
  stderr ← merge_stream prior.stderr input.stderr
  ok (record {
    launch = outcome.launch;
    shell_code = outcome.code;
    shell_signal = outcome.signal;
    cleanup_state = cleanup.state;
    cleanup_term_observation = cleanup.term;
    cleanup_kill_intent_observed = cleanup.kill;
    cancellation_intent_observed =
        raise_flag prior.cancellation_intent_observed input.cancellation_intent_observed;
    deadline_trigger_observed =
        raise_flag prior.deadline_trigger_observed input.deadline_trigger_observed;
    stdout = stdout;
    stderr = stderr;
    uncertain = uncertain;
    finalized = finalized;
  })
