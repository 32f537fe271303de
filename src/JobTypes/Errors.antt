-- ===== src/JobTypes/Errors.antt =====
-- src/job-types.ts: the error vocabulary of the store and its projection to diagnostics. A call
-- that may throw is a `Result`; the class hierarchy under `StoreError` is the data type `Thrown`.
use pi_watch.Base.{◌≡◌, refl, Text, Bool, true, false, Option, none, some}
use Prim.Native.String.{String}
use text.Mathlib.Text.{◌==◌ as message_eq}
use pi_watch.Base.{if◌then◌else◌}

-- `StoreErrorCode`
pub data StoreErrorCode : Type 0 where
  owner_rejected validation_failed request_key_conflict not_found claim_taken : StoreErrorCode
  revision_stale acceptance_unconfirmed store_busy store_unavailable : StoreErrorCode
  runtime_unsupported schema_too_new store_corrupt path_unsafe : StoreErrorCode

pub data CommitOutcome : Type 0 where
  unknown committed : CommitOutcome

-- What a call throws: a plain `StoreError`, one of its two subclasses, or any other value, whose
-- text (a path, an engine message) is private.
pub data Thrown : Type 0 where
  store_error : StoreErrorCode → String → Thrown
  ambiguous_acceptance : Text → CommitOutcome → Thrown
  store_write_error : CommitOutcome → Thrown
  foreign_error : String → Thrown

pub data Result {ℓ} (A : Type ℓ) : Type ℓ where
  ok : A → Result A
  err : Thrown → Result A

-- `await` and `;` in a `do` block: what follows a call that threw is skipped.
infixl 5 ◌>>=◌ ◌>>◌
abbrev pub ◌>>=◌ {ℓ μ} : {X : Type ℓ} {Y : Type μ} → Result X → (X → Result Y) → Result Y
err thrown >>= next = err thrown
ok x >>= next = next x

-- `if (b) throw e`
abbrev pub throw_if : Bool → Thrown → Result (Unit {0})
throw_if true e = err e
throw_if false e = ok tt

abbrev pub ◌>>◌ {ℓ} : {Y : Type ℓ} → Result (Unit {0}) → Result Y → Result Y
done >> rest = done >>= λ _. rest

-- `error.code`, `error.message` of the values that are `StoreError`s.
abbrev pub ambiguous_message : String
ambiguous_message = "Reservation response unavailable; reconcile metadata without launching."

abbrev pub write_message : String
write_message = "Store write response unavailable; inspect durable state."

pub record StoreDiagnostic : Type 0 where
  pub code : Option StoreErrorCode  -- `none` is 'UNKNOWN'
  pub message : Option String

-- The spelling of a code, which is the message where none was given.
unfoldable pub code_text : StoreErrorCode → String
code_text owner_rejected = "OWNER_REJECTED"
code_text validation_failed = "VALIDATION_FAILED"
code_text request_key_conflict = "REQUEST_KEY_CONFLICT"
code_text not_found = "NOT_FOUND"
code_text claim_taken = "CLAIM_TAKEN"
code_text revision_stale = "REVISION_STALE"
code_text acceptance_unconfirmed = "ACCEPTANCE_UNCONFIRMED"
code_text store_busy = "STORE_BUSY"
code_text store_unavailable = "STORE_UNAVAILABLE"
code_text runtime_unsupported = "RUNTIME_UNSUPPORTED"
code_text schema_too_new = "SCHEMA_TOO_NEW"
code_text store_corrupt = "STORE_CORRUPT"
code_text path_unsafe = "PATH_UNSAFE"

unfoldable pub diagnose : StoreErrorCode → String → StoreDiagnostic
diagnose code message =
    if message_eq message (code_text code)
    then record { code = some code; message = none }
    else record { code = some code; message = some message }

-- `toDiagnostic`
unfoldable pub to_diagnostic : Thrown → StoreDiagnostic
unfolding diagnose
to_diagnostic (store_error code message) = diagnose code message
to_diagnostic (ambiguous_acceptance candidate outcome) =
    diagnose acceptance_unconfirmed ambiguous_message
to_diagnostic (store_write_error outcome) = diagnose store_unavailable write_message
to_diagnostic (foreign_error private_text) = record { code = none; message = none }

-- A call that cannot throw returns.
pub returns {ℓ} :
    {X : Type ℓ} (r : Result X) → ((e : Thrown) → r ≡ err e → ⊥) → (x : X) × (r ≡ ok x)
returns (ok x) never = (x, refl)
returns (err e) never = absurd (never e refl)
