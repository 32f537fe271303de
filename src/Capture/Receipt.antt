-- ===== src/Capture/Receipt.antt =====
-- src/output-capture.ts: the text of a closure receipt, and `parseClosureReceipt`. What `JSON.parse`
-- makes of the bytes is an argument.
use pi_watch.Base.{
  ℕ, zero, suc, ◌+◌, ◌/◌, ◌%◌, pos, Text, text, text_eq, Bool, true, false, not, ◌&&◌, ◌||◌, Option,
  none, some, List, [], ◌∷◌, ◌++◌, leb, ltb, ◌==◌, length, if◌then◌else◌,
}
use pi_watch.JobTypes.Validate.{JsValue, integer, number, string, boolean}
use pi_watch.Output.Page.{CaptureStream, standard_output, standard_error, stream_text}
use pi_watch.Capture.Machine.{
  output_capture_limit, ClosureReason, eof, cutover, capture_error, ClosureReceipt,
}

-- `CLOSURE_RECEIPT_LIMIT`
abbrev pub closure_receipt_limit : ℕ
closure_receipt_limit = 512

-- `Number.MAX_SAFE_INTEGER`
abbrev pub max_safe_integer : ℕ
max_safe_integer = 9007199254740991

-- The digits of a number, the first ones first; sixteen hold every safe integer.
unfoldable pub decimal : ℕ → ℕ → Text
decimal zero n = (b'0' + n % 10) ∷ []
decimal (suc fuel) n =
    let front = decimal fuel (n / 10) in
    if ltb n 10 then (b'0' + n) ∷ [] else front ++ ((b'0' + n % 10) ∷ [])

abbrev pub number_text : ℕ → Text
number_text n = decimal 15 n

abbrev pub flag_text : Bool → Text
flag_text true = text "true"
flag_text false = text "false"

abbrev pub reason_text : ClosureReason → Text
reason_text eof = text "eof"
reason_text cutover = text "cutover"
reason_text capture_error = text "capture_error"

abbrev pub joined : List Text → Text
joined [] = []
joined (t ∷ ts) = t ++ joined ts

abbrev pub pieces : ClosureReceipt → List Text
pieces receipt =
    text "{\"version\":1,\"stream\":\""
    ∷ stream_text receipt.stream
    ∷ text "\",\"retainedBytes\":"
    ∷ number_text receipt.retained_bytes
    ∷ text ",\"truncated\":"
    ∷ flag_text receipt.truncated
    ∷ text ",\"incomplete\":"
    ∷ flag_text receipt.incomplete
    ∷ text ",\"openAtCutover\":"
    ∷ flag_text receipt.open_at_cutover
    ∷ text ",\"reason\":\""
    ∷ reason_text receipt.reason
    ∷ text "\",\"rawDev\":"
    ∷ number_text receipt.raw_dev
    ∷ text ",\"rawIno\":"
    ∷ number_text receipt.raw_ino
    ∷ text "}"
    ∷ []

-- `JSON.stringify(receipt)`; all of it is ASCII.
unfoldable pub receipt_json : ClosureReceipt → Text
receipt_json receipt = joined (pieces receipt)

-- `canonicalReceipt`; `none` if it throws.
unfoldable pub canonical_receipt : ClosureReceipt → Option Text
canonical_receipt receipt =
    if ltb closure_receipt_limit (length (receipt_json receipt))
    then none
    else some (receipt_json receipt)

-- A value that `JSON.parse` returns: the entries of an object, or something else.
pub data Parsed : Type 0 where
  no_object : Parsed
  entries : List (Text × JsValue) → Parsed

abbrev pub receipt_keys : List Text
receipt_keys =
    text "version"
    ∷ text "stream"
    ∷ text "retainedBytes"
    ∷ text "truncated"
    ∷ text "incomplete"
    ∷ text "openAtCutover"
    ∷ text "reason"
    ∷ text "rawDev"
    ∷ text "rawIno"
    ∷ []

-- `Object.keys(record)` is the list of keys, in its order.
unfoldable pub keys_match : List Text → List (Text × JsValue) → Bool
keys_match [] [] = true
keys_match (key ∷ keys) ((k, v) ∷ record_entries) = text_eq key k && keys_match keys record_entries
keys_match _ _ = false

abbrev pub is_version : JsValue → Bool
is_version (number (integer (pos n))) = n == 1
is_version _ = false

abbrev pub as_stream : JsValue → Option CaptureStream
as_stream (string t) =
    if text_eq t (text "stdout")
    then some standard_output
    else (if text_eq t (text "stderr") then some standard_error else none)
as_stream _ = none

-- A safe integer from 0 to a bound.
abbrev pub as_count : ℕ → JsValue → Option ℕ
as_count bound (number (integer (pos n))) = if leb n bound then some n else none
as_count bound _ = none

abbrev pub as_flag : JsValue → Option Bool
as_flag (boolean b) = some b
as_flag _ = none

abbrev pub as_reason : JsValue → Option ClosureReason
as_reason (string t) =
    if text_eq t (text "eof")
    then some eof
    else (if text_eq t (text "cutover")
        then some cutover
        else (if text_eq t (text "capture_error") then some capture_error else none))
as_reason _ = none

abbrev pub build :
    Option CaptureStream
    → Option ℕ
    → Option Bool
    → Option Bool
    → Option Bool
    → Option ClosureReason
    → Option ℕ
    → Option ℕ
    → Option ClosureReceipt
build (some s) (some n) (some t) (some i) (some o) (some r) (some d) (some k) = some (record {
  stream = s;
  retained_bytes = n;
  truncated = t;
  incomplete = i;
  open_at_cutover = o;
  reason = r;
  raw_dev = d;
  raw_ino = k;
})
build _ _ _ _ _ _ _ _ = none

unfoldable pub read_values : List (Text × JsValue) → Option ClosureReceipt
read_values ((_, v) ∷ (_, s) ∷ (_, n) ∷ (_, t) ∷ (_, i) ∷ (_, o) ∷ (_, r) ∷ (_, d) ∷ (_, k) ∷ []) =
    if is_version v
    then build (as_stream s) (as_count output_capture_limit n) (as_flag t) (as_flag i) (as_flag o)
        (as_reason r) (as_count max_safe_integer d) (as_count max_safe_integer k)
    else none
read_values _ = none

-- `isCanonicalReceipt`, which here returns the receipt that the value is.
unfoldable pub canonical : Parsed → Text → Option ClosureReceipt
canonical no_object bytes = none
canonical (entries members) bytes =
    if keys_match receipt_keys members
    then elim (read_values members) [
      | none ↦ none
      | some receipt ↦ if text_eq (receipt_json receipt) bytes then some receipt else none
    ]
    else none

-- The test at the end of `parseClosureReceipt`.
unfoldable pub is_incoherent : ClosureReceipt → Bool
is_incoherent receipt = elim receipt.reason [
  | eof ↦
      receipt.incomplete
      || receipt.open_at_cutover
      || (receipt.truncated && not (receipt.retained_bytes == output_capture_limit))
  | cutover ↦
      not receipt.incomplete
      || not receipt.open_at_cutover
      || (receipt.truncated && not (receipt.retained_bytes == output_capture_limit))
  | capture_error ↦ not receipt.incomplete
]

-- `parseClosureReceipt`; `JSON.parse` throws for `none`.
unfoldable pub parse_closure_receipt : Option Parsed → Text → CaptureStream → Option ClosureReceipt
unfolding canonical
parse_closure_receipt none bytes stream = none
parse_closure_receipt (some value) bytes stream =
    if ltb closure_receipt_limit (length bytes) then none else elim (canonical value bytes) [
      | none ↦ none
      | some receipt ↦
          if not (text_eq (stream_text receipt.stream) (stream_text stream))
            || is_incoherent receipt
          then none
          else some receipt
    ]
