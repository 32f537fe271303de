-- ===== src/Tests/Owner.antt =====
-- A session file of a few lines, and the theorems about owners at it.
use pi_watch.Base.{Text, text, text_eq, Bool, true, Option, some, [], ◌∷◌, ◌≡◌, ◌↔◌, refl}
use pi_watch.JobTypes.Errors.{ok, err, store_error, owner_rejected}
use pi_watch.JobTypes.Validate.{
  string, null, is_lower_hex, matches_uuid, is_well_formed_non_empty, pairs_surrogates, skip_run,
}
use pi_watch.Evidence.Validate.{property}
use pi_watch.Capture.Receipt.{Parsed, entries}
use pi_watch.Owner.Validate.{
  split_lines, trim_start, trim_end, session_id, first_header, default_session_header_reader,
  validate_session, validate_owner,
}
use pi_watch.Owner.Backed.{IsBacked, code_of, validate_owner-IsBacked, validate_owner-error}
use pi_watch.Owner.Header.{default_session_header_reader-matches_uuid}

abbrev uuid : Text
uuid = text "0f8fad5b-d9cb-469f-a165-70867728950e"

abbrev upper : Text
upper = text "0F8FAD5B-d9cb-469f-a165-70867728950E"

-- A blank line, then the header; everything that is parsed here is this header.
abbrev json_parse : Text → Option Parsed
json_parse line =
    some (entries ((text "type", string (text "session")) ∷ (text "id", string upper) ∷ []))

abbrev first_chunk : Text → Option Text
first_chunk path = some (32 ∷ 10 ∷ text "{}")

abbrev path : Text
path = text "/s"

abbrev reader : Text → Option Text
reader = default_session_header_reader json_parse first_chunk

abbrev is_file : Text → Bool
is_file t = true

header_read : reader path ≡ some uuid
unfolding default_session_header_reader split_lines first_header trim_start trim_end session_id
    property text_eq matches_uuid skip_run
header_read = refl

default_session_header_reader-matches_uuid_example : matches_uuid is_lower_hex uuid ≡ true
default_session_header_reader-matches_uuid_example =
    default_session_header_reader-matches_uuid json_parse first_chunk path header_read

upper_accepted : validate_owner is_file reader (string upper) (string path) ≡ ok tt
unfolding validate_owner validate_session default_session_header_reader split_lines first_header
    trim_start trim_end session_id property text_eq matches_uuid skip_run is_well_formed_non_empty
    pairs_surrogates
upper_accepted = refl

validate_owner-IsBacked_example :
    (validate_owner is_file reader (string upper) (string path) ≡ ok tt)
    ↔ ((id : Text) × IsBacked is_file reader upper path id)
validate_owner-IsBacked_example = validate_owner-IsBacked is_file reader upper path

no_path :
    validate_owner is_file reader (string upper) null
    ≡ err (store_error owner_rejected "Owner session path is missing or malformed.")
unfolding validate_owner validate_session matches_uuid skip_run
no_path = refl

validate_owner-error_example :
    code_of (store_error owner_rejected "Owner session path is missing or malformed.")
    ≡ some owner_rejected
validate_owner-error_example = validate_owner-error is_file reader (string upper) null no_path
