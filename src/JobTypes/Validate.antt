-- ===== src/JobTypes/Validate.antt =====
-- src/job-types.ts: the validators of what callers hand over, as functions on JavaScript values.
-- Randomness enters as an argument. `resolveCwd` is not here: it only calls `node:path`.
use Prim.Native.String.{String}
use pi_watch.Base.{
  ℕ, zero, suc, ◌+◌, ℤ, pos, Text, Bool, true, false, not, ◌&&◌, ◌||◌, Option, none, some, [], ◌∷◌,
  map, leb, ltb, ◌==◌, if◌then◌else◌, every, any, length,
}
use pi_watch.JobTypes.Errors.{Result, ok, err, store_error, validation_failed}

-- `number`: the integers, and the values for which `Number.isInteger` is false.
pub data JsNumber : Type 0 where
  integer : ℤ → JsNumber
  fraction not_a_number infinite : JsNumber

-- `unknown`: what the validators tell apart. `other` is an object, function, symbol or bigint.
pub data JsValue : Type 0 where
  undefined null other : JsValue
  boolean : Bool → JsValue
  number : JsNumber → JsValue
  string : Text → JsValue

abbrev pub in_range : ℕ → ℕ → ℕ → Bool
in_range lo hi c = leb lo c && leb c hi

abbrev pub is_digit : ℕ → Bool
is_digit = in_range b'0' b'9'

abbrev pub is_letter : ℕ → Bool
is_letter c = in_range b'A' b'Z' c || in_range b'a' b'z' c

-- `[0-9a-f]`, and with the flag `i`.
abbrev pub is_lower_hex : ℕ → Bool
is_lower_hex c = is_digit c || in_range b'a' b'f' c

abbrev pub is_hex : ℕ → Bool
is_hex c = is_lower_hex c || in_range b'A' b'F' c

-- `[class]{n}` at the head of a text: the rest, if it matches.
unfoldable pub skip_run : (ℕ → Bool) → ℕ → Text → Option Text
skip_run p zero t = some t
skip_run p (suc n) [] = none
skip_run p (suc n) (c ∷ t) = let rest = skip_run p n t in if p c then rest else none

-- The pattern of a UUID over a class of digits: `h{8}-h{4}-h{4}-h{4}-h{12}`.
abbrev pub dash : ℕ → Bool
dash c = c == b'-'

abbrev pub chain_run : Option Text → (ℕ → Bool) → ℕ → Option Text
chain_run none p n = none
chain_run (some t) p n = skip_run p n t

abbrev pub is_end : Option Text → Bool
is_end none = false
is_end (some []) = true
is_end (some (_ ∷ _)) = false

unfoldable pub matches_uuid : (ℕ → Bool) → Text → Bool
matches_uuid h t =
    let a = chain_run (skip_run h 8 t) dash 1 in
    let b = chain_run (chain_run a h 4) dash 1 in
    let c = chain_run (chain_run b h 4) dash 1 in
    let d = chain_run (chain_run c h 4) dash 1 in is_end (chain_run d h 12)

-- `toLowerCase`, on ASCII.
abbrev pub lower_unit : ℕ → ℕ
lower_unit c = if in_range b'A' b'Z' c then c + 32 else c

abbrev pub to_lower_case : Text → Text
to_lower_case = map lower_unit

-- `allocateReservationId`; `fresh` is what `randomUUID()` returns.
unfoldable pub allocate_reservation_id : Text → JsValue → Result Text
unfolding matches_uuid
allocate_reservation_id fresh undefined = ok fresh
allocate_reservation_id fresh (string candidate) =
    if matches_uuid is_hex candidate
    then ok (to_lower_case candidate)
    else err (store_error validation_failed "Candidate job id must be a UUID.")
allocate_reservation_id fresh _ =
    err (store_error validation_failed "Candidate job id must be a UUID.")

abbrev pub is_high_surrogate : ℕ → Bool
is_high_surrogate = in_range 0xD800 0xDBFF

abbrev pub is_low_surrogate : ℕ → Bool
is_low_surrogate = in_range 0xDC00 0xDFFF

-- `/^(?:[^\uD800-\uDFFF]|[\uD800-\uDBFF][\uDC00-\uDFFF])*$/`
unfoldable pub pairs_surrogates : Text → Bool
pairs_surrogates [] = true
pairs_surrogates (c ∷ []) = not (in_range 0xD800 0xDFFF c)
pairs_surrogates (c ∷ d ∷ t) =
    let plain = pairs_surrogates (d ∷ t) in
    let paired = pairs_surrogates t in
    if not (in_range 0xD800 0xDFFF c)
    then plain
    else (if is_high_surrogate c && is_low_surrogate d then paired else false)

-- `isWellFormedNonEmpty`
unfoldable pub is_well_formed_non_empty : Text → Bool
unfolding pairs_surrogates
is_well_formed_non_empty value =
    ltb 0 (length value) && (not (any (λ c. c == 0) value) && pairs_surrogates value)

-- What `trim` removes: JavaScript's white space and line terminators.
abbrev pub is_white_space : ℕ → Bool
is_white_space c =
    in_range 9 13 c
    || (c == 32
        || (c == 0xA0
            || (c == 0x1680
                || (in_range 0x2000 0x200A c
                    || (in_range 0x2028 0x2029 c
                        || (c == 0x202F || (c == 0x205F || (c == 0x3000 || c == 0xFEFF))))))))

-- `requireString`; a text trims to nothing when it is all white space.
unfoldable pub require_string : JsValue → String → Result Text
unfolding is_well_formed_non_empty
require_string (string value) message =
    if not (is_well_formed_non_empty value) || every is_white_space value
    then err (store_error validation_failed message)
    else ok value
require_string _ message = err (store_error validation_failed message)

-- `validateCommand`
unfoldable pub validate_command : JsValue → Result Text
unfolding require_string
validate_command command =
    require_string command "Command must be a nonempty, well-formed Unicode string."

abbrev pub default_deadline_ms : ℕ
default_deadline_ms = 1800000

abbrev pub max_deadline_ms : ℕ
max_deadline_ms = 86400000

abbrev deadline_message : String
deadline_message = "Deadline must be an integer between 1 and 86,400,000 ms."

-- `validateDeadlineMs`
unfoldable pub validate_deadline_ms : JsValue → Result ℕ
validate_deadline_ms undefined = ok default_deadline_ms
validate_deadline_ms (number (integer (pos n))) =
    if ltb n 1 || ltb max_deadline_ms n
    then err (store_error validation_failed deadline_message)
    else ok n
validate_deadline_ms _ = err (store_error validation_failed deadline_message)

abbrev is_key_unit : ℕ → Bool
is_key_unit c =
    is_letter c || (is_digit c || (c == b'.' || (c == b'_' || (c == b':' || c == b'-'))))

abbrev key_message : String
key_message = "Request key must be 1-128 ASCII characters matching [A-Za-z0-9][A-Za-z0-9._:-]*."

-- `/^[A-Za-z0-9][A-Za-z0-9._:-]{0,127}$/`
unfoldable pub matches_request_key : Text → Bool
matches_request_key [] = false
matches_request_key (c ∷ t) =
    (is_letter c || is_digit c) && (leb (length t) 127 && every is_key_unit t)

-- `validateRequestKey`
unfoldable pub validate_request_key : JsValue → Result Text
unfolding matches_request_key
validate_request_key (string key) =
    if matches_request_key key then ok key else err (store_error validation_failed key_message)
validate_request_key _ = err (store_error validation_failed key_message)
