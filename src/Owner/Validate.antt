-- ===== src/Owner/Validate.antt =====
-- src/owner.ts: the header of a session file, and `validateOwner`. The file system and `JSON.parse`
-- are arguments.
use pi_watch.Base.{
  Text, text, text_eq, Bool, false, not, Option, none, some, List, [], ◌∷◌, ◌==◌, if◌then◌else◌,
}
use pi_watch.JobTypes.Errors.{Result, ok, err, store_error, owner_rejected}
use pi_watch.JobTypes.Validate.{
  JsValue, string, is_hex, matches_uuid, to_lower_case, is_white_space, is_well_formed_non_empty,
}
use pi_watch.Evidence.Validate.{property}
use pi_watch.Capture.Receipt.{Parsed, no_object, entries}

-- `chunk.split('\n')`
unfoldable pub split_lines : Text → List Text
split_lines [] = [] ∷ []
split_lines (c ∷ t) = elim (split_lines t) [
  | [] ↦ (c ∷ []) ∷ []
  | line ∷ lines ↦ if c == 10 then [] ∷ line ∷ lines else (c ∷ line) ∷ lines
]

-- `line.trim()`
unfoldable pub trim_start : Text → Text
trim_start [] = []
trim_start (c ∷ t) = let rest = trim_start t in if is_white_space c then rest else c ∷ t

unfoldable pub trim_end : Text → Text
trim_end [] = []
trim_end (c ∷ t) = elim (trim_end t) [
  | [] ↦ if is_white_space c then [] else c ∷ []
  | d ∷ rest ↦ c ∷ d ∷ rest
]

abbrev pub trim : Text → Text
trim line = trim_end (trim_start line)

abbrev pub is_session : Option JsValue → Bool
is_session (some (string t)) = text_eq t (text "session")
is_session _ = false

-- The identity of a header: its `id`, if it is a UUID.
abbrev pub header_id : Option JsValue → Option Text
header_id (some (string id)) = if matches_uuid is_hex id then some (to_lower_case id) else none
header_id _ = none

-- A line of the file, parsed; `JSON.parse` throws for `none`.
unfoldable pub session_id : Option Parsed → Option Text
session_id none = none
session_id (some no_object) = none
session_id (some (entries members)) =
    if is_session (property (text "type") members)
    then header_id (property (text "id") members)
    else none

-- The first line that is not blank decides.
unfoldable pub first_header : (Text → Option Parsed) → List Text → Option Text
first_header json_parse [] = none
first_header json_parse (line ∷ lines) =
    let rest = first_header json_parse lines in
    elim (trim line) [ [] ↦ rest | c ∷ t ↦ session_id (json_parse (c ∷ t)) ]

-- `defaultSessionHeaderReader`, given the first bytes of the file, decoded, if they can be read.
unfoldable pub default_session_header_reader :
    (Text → Option Parsed) → (Text → Option Text) → Text → Option Text
unfolding first_header
default_session_header_reader json_parse first_chunk path = elim (first_chunk path) [
  | none ↦ none
  | some chunk ↦ first_header json_parse (split_lines chunk)
]

abbrev pub header_matches : Option Text → Text → Result (Unit {0})
header_matches none owner = err (store_error owner_rejected "Owner session header is malformed.")
header_matches (some id) owner =
    if text_eq (to_lower_case id) (to_lower_case owner)
    then ok tt
    else err (store_error owner_rejected "Owner session header does not match.")

-- `validateOwner` on an identity that is a UUID.
unfoldable pub validate_session :
    (Text → Bool) → (Text → Option Text) → Text → JsValue → Result (Unit {0})
validate_session is_file reader owner (string path) =
    if not (is_well_formed_non_empty path)
    then err (store_error owner_rejected "Owner session path is missing or malformed.")
    else (if is_file path
        then header_matches (reader path) owner
        else err (store_error owner_rejected "Owner session file is missing or unreadable."))
validate_session is_file reader owner _ =
    err (store_error owner_rejected "Owner session path is missing or malformed.")

-- `validateOwner`; `is_file` is `statSync(path).isFile()`, and false where that throws.
unfoldable pub validate_owner :
    (Text → Bool) → (Text → Option Text) → JsValue → JsValue → Result (Unit {0})
unfolding validate_session
validate_owner is_file reader (string owner) session_path =
    if matches_uuid is_hex owner
    then validate_session is_file reader owner session_path
    else err (store_error owner_rejected "Owner identity is not a valid UUID.")
validate_owner is_file reader _ session_path =
    err (store_error owner_rejected "Owner identity is not a valid UUID.")
