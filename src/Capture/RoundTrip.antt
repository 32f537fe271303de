-- ===== src/Capture/RoundTrip.antt =====
-- src/output-capture.ts: a receipt that is written is read back, and only such text is read.
use pi_watch.Base.{
  ℕ, zero, suc, ◌+◌, ◌/◌, ◌%◌, ◌≤◌, pos, Text, text, text_eq, text_eq_refl, text_eq→eq, Bool, true,
  false, Option, none, some, List, [], ◌∷◌, ltb, length, ◌≡◌, refl, arith, length-append,
  Option-cases, inl, inr,
}
use pi_watch.JobTypes.Validate.{JsValue, integer, number, string, boolean}
use pi_watch.Output.Page.{CaptureStream, standard_output, standard_error, stream_text}
use pi_watch.Capture.Machine.{
  output_capture_limit, ClosureReason, eof, cutover, capture_error, ClosureReceipt,
}
use pi_watch.Capture.Receipt.{
  closure_receipt_limit, max_safe_integer, decimal, flag_text, reason_text, joined, pieces,
  receipt_json, canonical_receipt, Parsed, entries, no_object, keys_match, as_stream, as_count,
  as_reason, read_values, canonical, is_incoherent, parse_closure_receipt,
}

length-decimal : (fuel n : ℕ) → length (decimal fuel n) ≤ fuel + 1
unfolding decimal
length-decimal zero n = omega arith
length-decimal (suc fuel) n = ground (
  arith,
  length-decimal fuel (n / 10),
  length-append (decimal fuel (n / 10)) ((b'0' + n % 10) ∷ []),
)

abbrev total : List Text → ℕ
total [] = 0
total (t ∷ ts) = length t + total ts

length-joined : (ts : List Text) → length (joined ts) ≡ total ts
length-joined [] = refl
length-joined (t ∷ ts) = omega (arith, length-append t (joined ts), length-joined ts)

length-stream_text : (s : CaptureStream) → length (stream_text s) ≤ 6
length-stream_text standard_output = omega arith
length-stream_text standard_error = omega arith

length-flag_text : (b : Bool) → length (flag_text b) ≤ 5
length-flag_text true = omega arith
length-flag_text false = omega arith

length-reason_text : (r : ClosureReason) → length (reason_text r) ≤ 13
length-reason_text eof = omega arith
length-reason_text cutover = omega arith
length-reason_text capture_error = omega arith

length-receipt_json : (r : ClosureReceipt) → length (receipt_json r) ≤ closure_receipt_limit
unfolding receipt_json
length-receipt_json r = omega (
  arith,
  length-joined (pieces r),
  length-stream_text r.stream,
  length-decimal 15 r.retained_bytes,
  length-flag_text r.truncated,
  length-flag_text r.incomplete,
  length-flag_text r.open_at_cutover,
  length-reason_text r.reason,
  length-decimal 15 r.raw_dev,
  length-decimal 15 r.raw_ino,
)

abbrev count : ℕ → JsValue
count n = number (integer (pos n))

-- What `JSON.parse` makes of the text of a receipt.
abbrev pub parsed_of : ClosureReceipt → Parsed
parsed_of r = entries (
    (text "version", count 1)
    ∷ (text "stream", string (stream_text r.stream))
    ∷ (text "retainedBytes", count r.retained_bytes)
    ∷ (text "truncated", boolean r.truncated)
    ∷ (text "incomplete", boolean r.incomplete)
    ∷ (text "openAtCutover", boolean r.open_at_cutover)
    ∷ (text "reason", string (reason_text r.reason))
    ∷ (text "rawDev", count r.raw_dev)
    ∷ (text "rawIno", count r.raw_ino)
    ∷ [])

-- The numbers of a receipt that JavaScript can hold exactly, and a length within the quota.
pub record IsExact (r : ClosureReceipt) : Type 0 where
  pub retained : r.retained_bytes ≤ output_capture_limit
  pub dev : r.raw_dev ≤ max_safe_integer
  pub ino : r.raw_ino ≤ max_safe_integer

as_stream-stream_text : (s : CaptureStream) → as_stream (string (stream_text s)) ≡ some s
unfolding text_eq
as_stream-stream_text standard_output = refl
as_stream-stream_text standard_error = refl

as_reason-reason_text : (r : ClosureReason) → as_reason (string (reason_text r)) ≡ some r
unfolding text_eq
as_reason-reason_text eof = refl
as_reason-reason_text cutover = refl
as_reason-reason_text capture_error = refl

as_count-count : (bound n : ℕ) → n ≤ bound → as_count bound (count n) ≡ some n
as_count-count bound n h = ground (arith, h)

canonical-parsed_of :
    (r : ClosureReceipt) → IsExact r → canonical (parsed_of r) (receipt_json r) ≡ some r
unfolding canonical keys_match read_values text_eq
canonical-parsed_of r exact =
    rw
      (
        as_stream-stream_text r.stream,
        as_count-count output_capture_limit r.retained_bytes exact.retained,
        as_reason-reason_text r.reason,
        as_count-count max_safe_integer r.raw_dev exact.dev,
        as_count-count max_safe_integer r.raw_ino exact.ino,
        text_eq_refl (receipt_json r),
      )
      refl

-- The text of a coherent receipt is never too long, and is read back as this receipt.
pub parse_closure_receipt-canonical_receipt :
    (r : ClosureReceipt)
    → IsExact r
    → is_incoherent r ≡ false
    → (canonical_receipt r ≡ some (receipt_json r))
      × (parse_closure_receipt (some (parsed_of r)) (receipt_json r) r.stream ≡ some r)
unfolding canonical_receipt parse_closure_receipt
parse_closure_receipt-canonical_receipt r exact coherent =
    let fits : ltb closure_receipt_limit (length (receipt_json r)) ≡ false =
      ground (arith, length-receipt_json r) in
    (
      rw fits refl,
      rw (fits, canonical-parsed_of r exact, text_eq_refl (stream_text r.stream), coherent) refl,
    )

canonical-text :
    (value : Parsed) (bytes : Text) {r : ClosureReceipt}
    → canonical value bytes ≡ some r
    → receipt_json r ≡ bytes
unfolding canonical
canonical-text no_object bytes h = ground arith
canonical-text (entries members) bytes {r} h = elim (Option-cases (read_values members)) [
  | inl unread ↦ ground (arith, h, unread)
  | inr (receipt, read) ↦ ground (arith, h, read, text_eq→eq (receipt_json receipt) bytes)
]

text_eq-stream_text : (s t : CaptureStream) → text_eq (stream_text s) (stream_text t) ≡ true → s ≡ t
unfolding text_eq
text_eq-stream_text standard_output standard_output h = refl
text_eq-stream_text standard_output standard_error h = ground arith
text_eq-stream_text standard_error standard_output h = ground arith
text_eq-stream_text standard_error standard_error h = refl

-- Whatever `JSON.parse` returns, bytes are read as a receipt only if they are its text, for the
-- stream that was asked for, and the receipt is coherent.
pub parse_closure_receipt-only :
    (value : Option Parsed) (bytes : Text) (stream : CaptureStream) {r : ClosureReceipt}
    → parse_closure_receipt value bytes stream ≡ some r
    → (receipt_json r ≡ bytes) × (r.stream ≡ stream) × (is_incoherent r ≡ false)
unfolding parse_closure_receipt
parse_closure_receipt-only none bytes stream h = ground arith
parse_closure_receipt-only (some value) bytes stream {r} h =
    elim (Option-cases (canonical value bytes)) [
      | inl unread ↦ ground (arith, h, unread)
      | inr (receipt, read) ↦
          let same : receipt_json receipt ≡ bytes = canonical-text value bytes read in
          ground (arith, h, read, same, text_eq-stream_text receipt.stream stream)
    ]
