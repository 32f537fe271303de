-- ===== src/Capture/Seal.antt =====
-- src/output-capture.ts: what `#seal` does once the pump and the marker have settled, and the
-- events that reach a capture.
use pi_watch.Base.{
  ℕ, Bool, true, false, not, ◌&&◌, ◌||◌, Option, none, some, is_some, List, [], ◌∷◌, ◌==◌,
  if◌then◌else◌,
}
use pi_watch.Capture.Machine.{
  FileIdentity, ClosureReason, eof, cutover, capture_error, ClosureReceipt, CaptureResult, Source,
  at_eof, at_cutover, Marker, settled, Capture, written_bytes, is_idle, is_pending, accept,
  source_error, write_ended, marker_ended, seal, invalidate_empty_staging, pump_settled,
}

-- What `#seal` learns: whether the raw file could be synced and closed, whether the marker is bound
-- and empty, whether workspace and raw file verify, the size of the raw file, and whether the
-- receipt is published.
pub record Answers : Type 0 where
  pub synced : Bool
  pub closed : Bool
  pub marker_bound : Bool
  pub verified : Bool
  pub raw_size : Option ℕ
  pub published : Bool

abbrev pub is_cutover : Source → Bool
is_cutover at_eof = false
is_cutover at_cutover = true

abbrev marker_durable : Marker → Bool
marker_durable (settled durable) = durable
marker_durable _ = false

-- `if (!this.#markerDurable) this.#durabilityLoss = true`, if there is a marker to wait for.
abbrev marker_lost : Marker → Bool
marker_lost (settled durable) = not durable
marker_lost _ = false

abbrev size_is : ℕ → Option ℕ → Bool
size_is n none = false
size_is n (some size) = size == n

abbrev reason_of : Bool → Source → ClosureReason
reason_of true source = capture_error
reason_of false at_eof = eof
reason_of false at_cutover = cutover

unfoldable pub closure_receipt : Source → Answers → FileIdentity → Capture → ClosureReceipt
closure_receipt source answers identity c = record {
  stream = c.stream;
  retained_bytes = written_bytes c;
  truncated = c.overflow_observed && marker_durable c.marker && answers.marker_bound;
  incomplete = c.capture_loss || is_cutover source;
  open_at_cutover = is_cutover source;
  reason = reason_of c.capture_loss source;
  raw_dev = identity.dev;
  raw_ino = identity.ino;
}

-- `#durabilityLoss` after the raw file is closed.
abbrev pub lost_by_now : Answers → Capture → Bool
lost_by_now answers c =
    c.durability_loss
    || marker_lost c.marker
    || (c.fd_open && not (answers.synced && answers.closed))

unfoldable pub receipt_of : Source → Answers → Capture → Option ClosureReceipt
unfolding closure_receipt
receipt_of source answers c = elim c.raw_identity [
  | none ↦ none
  | some identity ↦
      if not c.invalidated
        && not (lost_by_now answers c)
        && answers.verified
        && size_is (written_bytes c) answers.raw_size
        && answers.published
      then some (closure_receipt source answers identity c)
      else none
]

abbrev receipt_truncated : Option ClosureReceipt → Bool
receipt_truncated none = false
receipt_truncated (some receipt) = receipt.truncated

abbrev receipt_incomplete : Option ClosureReceipt → Bool
receipt_incomplete none = true
receipt_incomplete (some receipt) = receipt.incomplete

abbrev receipt_bytes : Option ClosureReceipt → ℕ
receipt_bytes none = 0
receipt_bytes (some receipt) = receipt.retained_bytes

abbrev capture_result : Source → Option ClosureReceipt → Capture → CaptureResult
capture_result source receipt c = record {
  available = is_some receipt;
  truncated = receipt_truncated receipt;
  incomplete = receipt_incomplete receipt;
  open_at_cutover = is_cutover source;
  retained_bytes = receipt_bytes receipt;
  drained_bytes = c.drained_bytes;
  receipt = receipt;
  telemetry = c.telemetry;
}

-- `#seal` after its first two waits.
unfoldable pub finish_seal : Answers → Capture → Capture
unfolding receipt_of
finish_seal answers c = elim c.sealing [
  | none ↦ c
  | some source ↦
      let receipt = receipt_of source answers c in
      if not (is_idle c.pump) || is_pending c.marker || is_some c.result then c else record c {
        fd_open = false;
        durability_loss = lost_by_now answers c || not (is_some receipt);
        result = some (capture_result source receipt c);
      }
]

pub data Event : Type 0 where
  chunk_read : List ℕ → Event
  source_failed : Event
  wrote : Option ℕ → Event
  marker_done : Option Bool → Event
  seal_asked : Source → Event
  invalidate_asked : Event
  seal_finished : Answers → Event

unfoldable pub handle : Event → Capture → Capture
handle (chunk_read chunk) c = accept chunk c
handle source_failed c = source_error c
handle (wrote outcome) c = write_ended outcome c
handle (marker_done outcome) c = marker_ended outcome c
handle (seal_asked source) c = seal source c
handle invalidate_asked c = invalidate_empty_staging c
handle (seal_finished answers) c = finish_seal answers c

unfoldable pub step : Event → Capture → Capture
step e c = pump_settled (handle e c)

unfoldable pub run : List Event → Capture → Capture
run [] c = c
run (e ∷ events) c = run events (step e c)
