-- ===== src/Client/Wire.antt =====
-- src/store-worker.ts: how `onMessage` answers with the outcome of a handler; src/store-client.ts:
-- what `onWorkerMessage` makes of the answer.
use Prim.Native.String.{String}
use pi_watch.Base.{Text, Bool, true, false, Option, none, some, if◌then◌else◌}
use pi_watch.JobTypes.Errors.{
  StoreErrorCode, schema_too_new, runtime_unsupported, store_unavailable, acceptance_unconfirmed,
  owner_rejected, validation_failed, request_key_conflict, not_found, claim_taken, revision_stale,
  store_busy, store_corrupt, path_unsafe, Thrown, store_error, ambiguous_acceptance,
  store_write_error, foreign_error, CommitOutcome, unknown, Result, ok, err, StoreDiagnostic,
  code_text, to_diagnostic,
}

-- `StoreResponseMessage` or `StoreErrorResponseMessage`, without the id.
pub data Reply {ℓ} (A : Type ℓ) : Type ℓ where
  succeeded : A → Reply A
  failed : StoreDiagnostic → Option Text → Option CommitOutcome → Reply A

-- The receipt that `onMessage` adds to a diagnostic.
abbrev receipt_candidate : Thrown → Option Text
receipt_candidate (ambiguous_acceptance candidate outcome) = some candidate
receipt_candidate _ = none

abbrev receipt_outcome : Thrown → Option CommitOutcome
receipt_outcome (ambiguous_acceptance candidate outcome) = some outcome
receipt_outcome (store_write_error outcome) = some outcome
receipt_outcome _ = none

-- The response of `onMessage` to the outcome of its handler.
unfoldable pub worker_reply {ℓ} : {A : Type ℓ} → Result A → Reply A
worker_reply (ok result) = succeeded result
worker_reply (err e) = failed (to_diagnostic e) (receipt_candidate e) (receipt_outcome e)

-- The code that survives; `none` is 'UNKNOWN'.
abbrev pub kept_code : Option StoreErrorCode → StoreErrorCode
kept_code none = store_unavailable
kept_code (some code) = code

-- The message that a client shows for a code.
unfoldable pub client_message : StoreErrorCode → String
client_message schema_too_new = "Store schema is newer; update pi-watch."
client_message runtime_unsupported = "Runtime is unsupported by pi-watch."
client_message store_unavailable = "Store is unavailable."
client_message owner_rejected = code_text owner_rejected
client_message validation_failed = code_text validation_failed
client_message request_key_conflict = code_text request_key_conflict
client_message not_found = code_text not_found
client_message claim_taken = code_text claim_taken
client_message revision_stale = code_text revision_stale
client_message acceptance_unconfirmed = code_text acceptance_unconfirmed
client_message store_busy = code_text store_busy
client_message store_corrupt = code_text store_corrupt
client_message path_unsafe = code_text path_unsafe

-- `storeErrorFromDiagnostic`: the message of the diagnostic is dropped.
unfoldable pub store_error_from_diagnostic : StoreDiagnostic → Thrown
unfolding client_message
store_error_from_diagnostic diagnostic =
    let code = kept_code diagnostic.code in store_error code (client_message code)

-- `response.candidateJobId ?? entry.candidateJobId`
abbrev pub first_of : Option Text → Option Text → Option Text
first_of none other = other
first_of (some t) other = some t

abbrev is_unconfirmed : Option StoreErrorCode → Bool
is_unconfirmed (some acceptance_unconfirmed) = true
is_unconfirmed _ = false

abbrev known_outcome : Option CommitOutcome → CommitOutcome
known_outcome none = unknown
known_outcome (some outcome) = outcome

abbrev write_error_or : Option CommitOutcome → StoreDiagnostic → Thrown
write_error_or none diagnostic = store_error_from_diagnostic diagnostic
write_error_or (some outcome) diagnostic = store_write_error outcome

-- The error that a failed response rejects its request with.
unfoldable pub client_error :
    StoreDiagnostic → Option Text → Option CommitOutcome → Option Text → Thrown
unfolding store_error_from_diagnostic
client_error diagnostic candidate outcome own = elim (first_of candidate own) [
  | none ↦ write_error_or outcome diagnostic
  | some id ↦
      if is_unconfirmed diagnostic.code
      then ambiguous_acceptance id (known_outcome outcome)
      else write_error_or outcome diagnostic
]

-- What the promise of a request settles with.
unfoldable pub client_result {ℓ} : {A : Type ℓ} → Option Text → Reply A → Result A
unfolding client_error
client_result own (succeeded result) = ok result
client_result own (failed diagnostic candidate outcome) =
    err (client_error diagnostic candidate outcome own)

-- What a caller of the client sees of a call that the store answers.
abbrev pub carried {ℓ} : {A : Type ℓ} → Option Text → Result A → Result A
carried own (ok result) = ok result
carried own (err (ambiguous_acceptance candidate outcome)) =
    err (ambiguous_acceptance candidate outcome)
carried own (err (store_write_error outcome)) = err (store_write_error outcome)
carried own (err (foreign_error private_text)) =
    err (store_error store_unavailable (client_message store_unavailable))
carried own (err (store_error code message)) = elim own [
  | none ↦ err (store_error code (client_message code))
  | some id ↦
      if is_unconfirmed (some code)
      then err (ambiguous_acceptance id unknown)
      else err (store_error code (client_message code))
]
