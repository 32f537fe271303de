-- ===== src/Evidence/Validated.antt =====
-- src/store-evidence.ts: what `validateEvidenceInput` accepts and what it throws.
use Prim.Native.String.{String}
use pi_watch.Base.{ℤ, Text, text, Option, none, some, List, [], ◌∷◌}
use pi_watch.JobTypes.Errors.{Thrown}
use pi_watch.JobTypes.Validate.{
  JsNumber, JsValue, undefined, null, boolean, number, string, integer,
}
use pi_watch.Evidence.Merge.{validation_error}
use pi_watch.Evidence.Defs.{
  LaunchPhase, CleanupState, CleanupTermObservation, StreamInput, EvidenceInput,
}
use pi_watch.Evidence.Defs
use pi_watch.Evidence.Validate.{RawValue, plain, object}

-- The JavaScript values of an observation; an omitted property is `undefined`.
abbrev pub launch_name : LaunchPhase → Text
launch_name Defs.unknown = text "unknown"
launch_name Defs.suppressed_cancelled = text "suppressed_cancelled"
launch_name Defs.suppressed_deadline = text "suppressed_deadline"
launch_name Defs.spawn_failed = text "spawn_failed"
launch_name Defs.launched = text "launched"

abbrev pub cleanup_name : CleanupState → Text
cleanup_name Defs.not_required = text "not_required"
cleanup_name Defs.not_requested = text "not_requested"
cleanup_name Defs.pending = text "pending"
cleanup_name Defs.unconfirmed = text "unconfirmed"

abbrev pub term_name : CleanupTermObservation → Text
term_name Defs.returned = text "returned"
term_name Defs.error = text "error"

abbrev pub js_of {ℓ} : {A : Type ℓ} → (A → JsValue) → Option A → JsValue
js_of js none = undefined
js_of js (some a) = js a

abbrev pub nullable_js_of {ℓ} : {A : Type ℓ} → (A → JsValue) → Option (Option A) → JsValue
nullable_js_of js none = undefined
nullable_js_of js (some none) = null
nullable_js_of js (some (some a)) = js a

abbrev pub stream_of : Option StreamInput → RawValue
stream_of none = plain undefined
stream_of (some input) = object (
    (text "available", nullable_js_of boolean input.available)
    ∷ (text "truncated", js_of boolean input.truncated)
    ∷ (text "incomplete", js_of boolean input.incomplete)
    ∷ (text "openAtCutover", js_of boolean input.open_at_cutover)
    ∷ [])

-- An object of the source's type `EvidenceInput`: its shell code is any number.
abbrev pub raw_of : Option (Option JsNumber) → EvidenceInput → List (Text × RawValue)
raw_of code input =
    (text "launch", plain (js_of (λ l. string (launch_name l)) input.launch))
    ∷ (text "shellCode", plain (nullable_js_of (λ n. number n) code))
    ∷ (text "shellSignal", plain (nullable_js_of (λ t. string t) input.shell_signal))
    ∷ (text "cleanupState", plain (js_of (λ s. string (cleanup_name s)) input.cleanup_state))
    ∷ (
      text "cleanupTermObservation",
      plain (nullable_js_of (λ o. string (term_name o)) input.cleanup_term_observation),
    )
    ∷ (text "cleanupKillIntentObserved", plain (js_of boolean input.cleanup_kill_intent_observed))
    ∷ (text "cancellationIntentObserved", plain (js_of boolean input.cancellation_intent_observed))
    ∷ (text "deadlineTriggerObserved", plain (js_of boolean input.deadline_trigger_observed))
    ∷ (text "stdout", stream_of input.stdout)
    ∷ (text "stderr", stream_of input.stderr)
    ∷ (text "finalized", plain (js_of boolean input.finalized))
    ∷ []

-- The shell code that the validation takes: none if it is a number and no integer.
abbrev pub integer_code : Option (Option JsNumber) → Option (Option (Option ℤ))
integer_code none = some none
integer_code (some none) = some (some none)
integer_code (some (some (integer z))) = some (some (some z))
integer_code (some (some _)) = none

abbrev pub not_an_integer : Thrown
not_an_integer = validation_error "Shell code must be an integer."
