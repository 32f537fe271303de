-- ===== src/Evidence/Refused.antt =====
-- src/store-evidence.ts: what `validateEvidenceInput` throws.
use Prim.Native.String.{String}
use pi_watch.Base.{
  Text, Bool, true, false, Option, none, some, List, [], ◌∷◌, ◌≡◌, refl, ap, sym, ◌∙◌, arith,
}
use pi_watch.JobTypes.Errors.{Thrown, store_error, validation_failed, Result, ok, err, ◌>>=◌, ◌>>◌}
use pi_watch.Evidence.Defs.{EvidenceInput}
use pi_watch.Evidence.Validate.{
  RawValue, launch_phases, cleanup_states, term_observations, check_keys, read_enum, read_nullable,
  read_code, read_signal, read_flag, read_fact, read_available, StreamMessages, stdout_messages,
  stderr_messages, read_stream, validate_evidence_input,
}

-- A call returns, or it throws VALIDATION_FAILED.
abbrev pub only_validates {ℓ} : {A : Type ℓ} → Result A → Bool
only_validates (ok a) = true
only_validates (err (store_error validation_failed message)) = true
only_validates (err _) = false

only_validates-bind {ℓ μ} :
    {A : Type ℓ} {B : Type μ} (first : Result A) (next : A → Result B)
    → only_validates first ≡ true
    → ((a : A) → only_validates (next a) ≡ true)
    → only_validates (first >>= next) ≡ true
only_validates-bind (ok a) next v rest = rest a
only_validates-bind (err e) next v rest = ground (arith, v)

only_validates-then {ℓ} :
    {B : Type ℓ} (first : Result (Unit {0})) (next : Result B)
    → only_validates first ≡ true
    → only_validates next ≡ true
    → only_validates (first >> next) ≡ true
only_validates-then (ok a) next v rest = rest
only_validates-then (err e) next v rest = ground (arith, v)

only_validates-check_keys :
    (quoted : Text → String) (raw : List (Text × RawValue))
    → only_validates (check_keys quoted raw) ≡ true
unfolding check_keys
only_validates-check_keys quoted [] = refl
only_validates-check_keys quoted (m ∷ raw) = ground (arith, only_validates-check_keys quoted raw)

only_validates-read_enum {ℓ} :
    {A : Type ℓ} (message : String) (names : List (Text × A)) (value : Option RawValue)
    → only_validates (read_enum message names value) ≡ true
unfolding read_enum
only_validates-read_enum message names value = ground arith

only_validates-read_nullable {ℓ} :
    {A : Type ℓ} (read : Option RawValue → Result (Option A)) (value : Option RawValue)
    → only_validates (read value) ≡ true
    → only_validates (read_nullable read value) ≡ true
unfolding read_nullable
only_validates-read_nullable read value v = ground (arith, v)

only_validates-read_code : (value : Option RawValue) → only_validates (read_code value) ≡ true
only_validates-read_code value = ground arith

only_validates-read_signal : (value : Option RawValue) → only_validates (read_signal value) ≡ true
only_validates-read_signal value = ground arith

only_validates-read_flag :
    (message : String) (value : Option RawValue) → only_validates (read_flag message value) ≡ true
unfolding read_flag
only_validates-read_flag message value = ground arith

only_validates-read_stream :
    (messages : StreamMessages) (value : Option RawValue)
    → only_validates (read_stream messages value) ≡ true
unfolding read_stream read_fact read_available
only_validates-read_stream messages value = ground arith

only_validates-validate :
    (quoted : Text → String) (raw : List (Text × RawValue))
    → only_validates (validate_evidence_input quoted (some raw)) ≡ true
unfolding validate_evidence_input
only_validates-validate quoted raw =
    only_validates-then _ _ (only_validates-check_keys quoted raw) (
      only_validates-bind _ _ (only_validates-read_enum _ launch_phases _) λ launch.
        only_validates-bind _ _ (only_validates-read_nullable _ _ (only_validates-read_code _))
          λ code.
            only_validates-bind _ _
              (only_validates-read_nullable _ _ (only_validates-read_signal _))
              λ signal.
                only_validates-bind _ _ (only_validates-read_enum _ cleanup_states _) λ cleanup.
                  only_validates-bind _ _
                    (only_validates-read_nullable _ _
                      (only_validates-read_enum _ term_observations _))
                    λ term. only_validates-bind _ _ (only_validates-read_flag _ _) λ kill.
                      only_validates-bind _ _ (only_validates-read_flag _ _) λ cancellation.
                        only_validates-bind _ _ (only_validates-read_flag _ _) λ deadline.
                          only_validates-bind _ _ (only_validates-read_flag _ _) λ finalized.
                            only_validates-bind _ _ (only_validates-read_stream stdout_messages _)
                              λ stdout.
                                only_validates-bind _ _
                                  (only_validates-read_stream stderr_messages _) λ stderr. refl)

unfoldable message_of : Thrown → String
message_of (store_error code message) = message
message_of _ = ""

error-shape :
    (e : Thrown)
    → only_validates {A = EvidenceInput} (err e) ≡ true
    → e ≡ store_error validation_failed (message_of e)
unfolding message_of
error-shape e h = ground (arith, h)

only_validates-value :
    (quoted : Text → String) (value : Option (List (Text × RawValue)))
    → only_validates (validate_evidence_input quoted value) ≡ true
unfolding validate_evidence_input
only_validates-value quoted none = refl
only_validates-value quoted (some raw) = only_validates-validate quoted raw

-- Whatever value is handed over as an observation, the validation returns or throws
-- VALIDATION_FAILED; nothing else is thrown.
pub validate_evidence_input-error :
    (quoted : Text → String) (value : Option (List (Text × RawValue))) {e : Thrown}
    → validate_evidence_input quoted value ≡ err e
    → (message : String) × (e ≡ store_error validation_failed message)
validate_evidence_input-error quoted value {e} h = (
  message_of e,
  error-shape e (ap (λ r. only_validates r) (sym h) ∙ only_validates-value quoted value),
)
