-- ===== src/Evidence/Validate.antt =====
-- src/store-evidence.ts: `validateEvidenceInput`, which returns its argument, read here as the type
-- that the source asserts of it.
use Prim.Native.String.{String}
use pi_watch.Base.{
  ℤ, Text, text, text_eq, Bool, Option, none, some, List, [], ◌∷◌, any, if◌then◌else◌,
}
use pi_watch.JobTypes.Errors.{Result, ok, err, ◌>>=◌, ◌>>◌}
use pi_watch.JobTypes.Validate.{JsValue, undefined, null, boolean, number, string, integer}
use pi_watch.Evidence.Defs.{
  LaunchPhase, CleanupState, CleanupTermObservation, StreamInput, EvidenceInput,
}
use pi_watch.Evidence.Defs
use pi_watch.Evidence.Merge.{validation_error}

-- The value of a property: an object with properties of its own, or another value.
pub data RawValue : Type 0 where
  plain : JsValue → RawValue
  object : List (Text × JsValue) → RawValue

-- `LAUNCH_PHASES`, `CLEANUP_STATES` and `TERM_OBSERVATIONS`
abbrev pub launch_phases : List (Text × LaunchPhase)
launch_phases =
    (text "unknown", Defs.unknown)
    ∷ (text "suppressed_cancelled", Defs.suppressed_cancelled)
    ∷ (text "suppressed_deadline", Defs.suppressed_deadline)
    ∷ (text "spawn_failed", Defs.spawn_failed)
    ∷ (text "launched", Defs.launched)
    ∷ []

abbrev pub cleanup_states : List (Text × CleanupState)
cleanup_states =
    (text "not_required", Defs.not_required)
    ∷ (text "not_requested", Defs.not_requested)
    ∷ (text "pending", Defs.pending)
    ∷ (text "unconfirmed", Defs.unconfirmed)
    ∷ []

abbrev pub term_observations : List (Text × CleanupTermObservation)
term_observations = (text "returned", Defs.returned) ∷ (text "error", Defs.error) ∷ []

-- `EVIDENCE_KEYS`
abbrev pub evidence_keys : List Text
evidence_keys =
    text "launch"
    ∷ text "shellCode"
    ∷ text "shellSignal"
    ∷ text "cleanupState"
    ∷ text "cleanupTermObservation"
    ∷ text "cleanupKillIntentObserved"
    ∷ text "cancellationIntentObserved"
    ∷ text "deadlineTriggerObserved"
    ∷ text "stdout"
    ∷ text "stderr"
    ∷ text "finalized"
    ∷ []

-- `raw[key]`; an absent property is `none`.
unfoldable pub property {ℓ} : {A : Type ℓ} → Text → List (Text × A) → Option A
property key [] = none
property key ((k, v) ∷ members) =
    let rest = property key members in if text_eq k key then some v else rest

-- `for (const key of Object.keys(raw))`; the message quotes the key.
unfoldable pub check_keys : (Text → String) → List (Text × RawValue) → Result (Unit {0})
check_keys quoted [] = ok tt
check_keys quoted ((key, v) ∷ members) =
    let rest = check_keys quoted members in
    if any (λ k. text_eq k key) evidence_keys then rest else err (validation_error (quoted key))

unfoldable pub read_enum {ℓ} :
    {A : Type ℓ} → String → List (Text × A) → Option RawValue → Result (Option A)
read_enum message names none = ok none
read_enum message names (some (plain undefined)) = ok none
read_enum message names (some (plain (string t))) = elim (property t names) [
  | none ↦ err (validation_error message)
  | some a ↦ ok (some a)
]
read_enum message names (some _) = err (validation_error message)

-- A property that may be `null`, with a reader for the other values.
unfoldable pub read_nullable {ℓ} :
    {A : Type ℓ}
    → (Option RawValue → Result (Option A))
    → Option RawValue
    → Result (Option (Option A))
read_nullable read none = ok none
read_nullable read (some (plain undefined)) = ok none
read_nullable read (some (plain null)) = ok (some none)
read_nullable read (some value) = do a ← read (some value); ok (some a)

abbrev pub read_code : Option RawValue → Result (Option ℤ)
read_code (some (plain (number (integer z)))) = ok (some z)
read_code _ = err (validation_error "Shell code must be an integer.")

abbrev pub read_signal : Option RawValue → Result (Option Text)
read_signal (some (plain (string t))) = ok (some t)
read_signal _ = err (validation_error "Shell signal must be a string.")

unfoldable pub read_flag : String → Option RawValue → Result (Option Bool)
read_flag message none = ok none
read_flag message (some (plain undefined)) = ok none
read_flag message (some (plain (boolean b))) = ok (some b)
read_flag message (some _) = err (validation_error message)

-- A property of a stream's object.
unfoldable pub read_fact : String → Option JsValue → Result (Option Bool)
read_fact message none = ok none
read_fact message (some undefined) = ok none
read_fact message (some (boolean b)) = ok (some b)
read_fact message (some _) = err (validation_error message)

unfoldable pub read_available : String → Option JsValue → Result (Option (Option Bool))
read_available message (some null) = ok (some none)
read_available message (some (boolean b)) = ok (some (some b))
read_available message none = ok none
read_available message (some undefined) = ok none
read_available message (some _) = err (validation_error message)

-- The messages of a stream.
pub record StreamMessages : Type 0 where
  pub no_object : String
  pub available : String
  pub truncated : String
  pub incomplete : String
  pub open_at_cutover : String

abbrev pub stdout_messages : StreamMessages
stdout_messages = record {
  no_object = "stdout capture facts must be an object.";
  available = "stdout.available must be a boolean.";
  truncated = "stdout.truncated must be a boolean.";
  incomplete = "stdout.incomplete must be a boolean.";
  open_at_cutover = "stdout.openAtCutover must be a boolean.";
}

abbrev pub stderr_messages : StreamMessages
stderr_messages = record {
  no_object = "stderr capture facts must be an object.";
  available = "stderr.available must be a boolean.";
  truncated = "stderr.truncated must be a boolean.";
  incomplete = "stderr.incomplete must be a boolean.";
  open_at_cutover = "stderr.openAtCutover must be a boolean.";
}

unfoldable pub read_stream : StreamMessages → Option RawValue → Result (Option StreamInput)
read_stream messages none = ok none
read_stream messages (some (plain undefined)) = ok none
read_stream messages (some (plain _)) = err (validation_error messages.no_object)
read_stream messages (some (object members)) = do
  available ← read_available messages.available (property (text "available") members)
  truncated ← read_fact messages.truncated (property (text "truncated") members)
  incomplete ← read_fact messages.incomplete (property (text "incomplete") members)
  open_at_cutover ← read_fact messages.open_at_cutover (property (text "openAtCutover") members)
  ok (
      some (record {
        available = available;
        truncated = truncated;
        incomplete = incomplete;
        open_at_cutover = open_at_cutover;
      }))

-- `validateEvidenceInput`, on the properties of an object, or on a value that is none.
unfoldable pub validate_evidence_input :
    (Text → String) → Option (List (Text × RawValue)) → Result EvidenceInput
validate_evidence_input quoted none = err (validation_error "Evidence must be an object.")
validate_evidence_input quoted (some raw) = do
  check_keys quoted raw
  launch ← read_enum "Launch phase is invalid." launch_phases (property (text "launch") raw)
  shell_code ← read_nullable read_code (property (text "shellCode") raw)
  shell_signal ← read_nullable read_signal (property (text "shellSignal") raw)
  cleanup_state ←
      read_enum "Cleanup state is invalid." cleanup_states (property (text "cleanupState") raw)
  term ←
      read_nullable (read_enum "Cleanup TERM observation is invalid." term_observations)
        (property (text "cleanupTermObservation") raw)
  kill ←
      read_flag "cleanupKillIntentObserved must be a boolean."
        (property (text "cleanupKillIntentObserved") raw)
  cancellation ←
      read_flag "cancellationIntentObserved must be a boolean."
        (property (text "cancellationIntentObserved") raw)
  deadline ←
      read_flag "deadlineTriggerObserved must be a boolean."
        (property (text "deadlineTriggerObserved") raw)
  finalized ← read_flag "finalized must be a boolean." (property (text "finalized") raw)
  stdout ← read_stream stdout_messages (property (text "stdout") raw)
  stderr ← read_stream stderr_messages (property (text "stderr") raw)
  ok (record {
    launch = launch;
    shell_code = shell_code;
    shell_signal = shell_signal;
    cleanup_state = cleanup_state;
    cleanup_term_observation = term;
    cleanup_kill_intent_observed = kill;
    cancellation_intent_observed = cancellation;
    deadline_trigger_observed = deadline;
    stdout = stdout;
    stderr = stderr;
    finalized = finalized;
  })
