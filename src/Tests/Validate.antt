-- ===== src/Tests/Validate.antt =====
-- JavaScript values handed over as observations, and the theorems about their validation.
use Prim.Native.String.{String}
use pi_watch.Base.{Text, text, text_eq, pos, true, none, some, List, [], ◌∷◌, ◌≡◌, refl}
use pi_watch.JobTypes.Errors.{store_error, validation_failed, err}
use pi_watch.JobTypes.Validate.{string, number, fraction}
use pi_watch.Evidence.Defs.{EvidenceInput, no_observation}
use pi_watch.Evidence.Defs
use pi_watch.Evidence.Merge.{validation_error}
use pi_watch.Evidence.Validate.{
  RawValue, plain, property, check_keys, read_enum, read_nullable, read_flag, read_stream,
  validate_evidence_input,
}
use pi_watch.Evidence.Refused.{validate_evidence_input-error}

abbrev quoted : Text → String
quoted key = "Unknown evidence property."

abbrev ended : EvidenceInput
ended = record no_observation {
  launch = some Defs.launched;
  shell_code = some (some (pos 3));
  stdout = some (record {
    available = some none;
    truncated = some true;
    incomplete = none;
    open_at_cutover = none;
  });
}

abbrev half_code : List (Text × RawValue)
half_code =
    (text "launch", plain (string (text "launched")))
    ∷ (text "shellCode", plain (number fraction))
    ∷ []

half_code_refused :
    validate_evidence_input quoted (some half_code)
    ≡ err (store_error validation_failed "Shell code must be an integer.")
unfolding validate_evidence_input property check_keys read_enum read_nullable text_eq
half_code_refused = refl

unknown_key :
    validate_evidence_input quoted (some ((text "pid", plain (number fraction)) ∷ []))
    ≡ err (validation_error "Unknown evidence property.")
unfolding validate_evidence_input check_keys text_eq
unknown_key = refl

stream_is_text :
    validate_evidence_input quoted (some ((text "stderr", plain (string (text "x"))) ∷ []))
    ≡ err (validation_error "stderr capture facts must be an object.")
unfolding validate_evidence_input property check_keys read_enum read_nullable read_flag read_stream
    text_eq
stream_is_text = refl

validate_evidence_input-error_example :
    (message : String) × (store_error validation_failed "Shell code must be an integer."
      ≡ store_error validation_failed message)
validate_evidence_input-error_example =
    validate_evidence_input-error quoted (some half_code) half_code_refused
