-- ===== src/Snapshot/Read.antt =====
-- src/output.ts: `readOutputSnapshot`, over what the file system answers. An
-- answer that a throw takes the place of is `none`.
use pi_watch.Base.{
  ℕ, pos, Bool, true, false, not, ◌&&◌, ◌||◌, Option, none, some, is_some, List, [], leb, ltb, ◌==◌,
  bool_eq, if◌then◌else◌,
}
use pi_watch.JobTypes.Validate.{JsValue, undefined, number, integer}
use pi_watch.Evidence.Defs.{StreamCaptureFacts}
use pi_watch.Output.Page.{
  CaptureStream, PageFacts, OutputData, OutputEnvelope, success, page_data, paginate,
}
use pi_watch.Capture.Machine.{output_capture_limit, capture_error, ClosureReason, ClosureReceipt}
use pi_watch.Capture.Receipt.{closure_receipt_limit, Parsed, parse_closure_receipt}
use pi_watch.Snapshot.Sidecar.{
  FileSeen, Stat, SidecarSeen, LoadedArtifact, missing, invalid, read_failed, loaded, same_file,
  load_sidecar,
}

pub data OutputErrorCode : Type 0 where
  invalid_offset offset_out_of_range capture_unavailable capture_corrupt : OutputErrorCode
  output_read_failed : OutputErrorCode

-- A step of the reader: it returns `failure(code)`, or goes on.
pub data Checked {ℓ} (A : Type ℓ) : Type ℓ where
  failure : OutputErrorCode → Checked A
  pass : A → Checked A

infixl 5 ◌>>=◌
abbrev pub ◌>>=◌ {ℓ μ} : {X : Type ℓ} {Y : Type μ} → Checked X → (X → Checked Y) → Checked Y
failure code >>= next = failure code
pass x >>= next = next x

-- `OutputObservation`, without the job.
pub record OutputObservation : Type 0 where
  pub finalized : Bool
  pub capture : StreamCaptureFacts

-- What `readOutputSnapshot` sees of the files of a stream; `parsed` is what `JSON.parse` makes of
-- the receipt.
pub record SnapshotSeen : Type 0 where
  pub workspace : Bool
  pub inspected : Option FileSeen
  pub stat : Option Stat
  pub bound : Bool
  pub marker : SidecarSeen
  pub closed : SidecarSeen
  pub parsed : Option Parsed
  pub marker_again : SidecarSeen
  pub read : Option (List ℕ)
  pub bound_after : Bool

abbrev pub is_false : Option Bool → Bool
is_false (some false) = true
is_false _ = false

abbrev pub is_true : Option Bool → Bool
is_true (some true) = true
is_true _ = false

-- `sqlitePermitsGrowth`
abbrev pub sqlite_permits_growth : OutputObservation → Bool
sqlite_permits_growth observation =
    let facts = observation.capture in
    not observation.finalized
    && not (is_false facts.available)
    && not facts.truncated
    && not facts.incomplete
    && not facts.open_at_cutover

-- `receiptMatchesFinalFacts`
abbrev pub receipt_matches_final_facts : ClosureReceipt → OutputObservation → Bool
receipt_matches_final_facts receipt observation =
    let facts = observation.capture in
    is_true facts.available
    && bool_eq receipt.truncated facts.truncated
    && bool_eq receipt.incomplete facts.incomplete
    && bool_eq receipt.open_at_cutover facts.open_at_cutover

-- The offset; it is 0 if it is left out.
abbrev pub valid_offset : JsValue → Checked ℕ
valid_offset undefined = pass 0
valid_offset (number (integer (pos n))) =
    if leb n output_capture_limit then pass n else failure invalid_offset
valid_offset _ = failure invalid_offset

-- The raw file, down to its size.
unfoldable pub check_raw : SnapshotSeen → Checked FileSeen
check_raw seen = elim seen.inspected [
  | none ↦ failure capture_unavailable
  | some file ↦
      if ltb output_capture_limit file.size then failure capture_corrupt else elim seen.stat [
        | none ↦ failure capture_unavailable
        | some stat ↦
            if stat.is_file && same_file stat.seen file && seen.bound
            then (if ltb output_capture_limit stat.seen.size
                then failure capture_corrupt
                else pass stat.seen)
            else failure capture_unavailable
      ]
]

abbrev pub check_offset : ℕ → ℕ → Checked (Unit {0})
check_offset offset size = if ltb size offset then failure offset_out_of_range else pass tt

-- Whether there is a marker of truncation.
abbrev pub check_marker : LoadedArtifact → Checked Bool
check_marker missing = pass false
check_marker invalid = failure capture_corrupt
check_marker read_failed = failure output_read_failed
check_marker (loaded bytes) = pass true

-- The receipt that covers the raw file, if there is one.
unfoldable pub check_receipt :
    CaptureStream
    → FileSeen
    → Bool
    → Option Parsed
    → LoadedArtifact
    → Checked (Option ClosureReceipt)
check_receipt stream raw permits_growth parsed missing = pass none
check_receipt stream raw permits_growth parsed invalid = failure capture_corrupt
check_receipt stream raw permits_growth parsed read_failed = failure output_read_failed
check_receipt stream raw permits_growth parsed (loaded bytes) =
    elim (parse_closure_receipt parsed bytes stream) [
      | none ↦ failure capture_corrupt
      | some receipt ↦
          if not (receipt.raw_dev == raw.dev)
            || not (receipt.raw_ino == raw.ino)
            || ltb receipt.retained_bytes raw.size
          then failure capture_corrupt
          else (if ltb raw.size receipt.retained_bytes
              then (if permits_growth then pass none else failure capture_corrupt)
              else pass (some receipt))
    ]

abbrev pub says_truncated : Option ClosureReceipt → Bool
says_truncated none = false
says_truncated (some receipt) = receipt.truncated

abbrev is_capture_error : ClosureReason → Bool
is_capture_error capture_error = true
is_capture_error _ = false

abbrev pub is_partial_overflow : Option ClosureReceipt → Bool
is_partial_overflow none = false
is_partial_overflow (some receipt) = receipt.truncated && is_capture_error receipt.reason

-- The marker read once more if only the receipt knows of the truncation.
abbrev pub marker_now : Option ClosureReceipt → Bool → LoadedArtifact → Checked Bool
marker_now receipt marker again =
    if says_truncated receipt && not marker then check_marker again else pass marker

-- A marker beside a raw file that has not reached the limit.
unfoldable pub settle_marker : Bool → ℕ → Option ClosureReceipt → Bool → Checked Bool
settle_marker permits_growth retained receipt marker =
    if marker && ltb retained output_capture_limit
    then (if is_partial_overflow receipt
        then pass marker
        else (if is_some receipt || not permits_growth
            then failure capture_corrupt
            else pass false))
    else pass marker

-- The checks of the receipt against the final facts and the marker.
unfoldable pub check_final : OutputObservation → Option ClosureReceipt → Bool → Checked (Unit {0})
check_final observation none marker =
    if observation.finalized then failure capture_corrupt else pass tt
check_final observation (some receipt) marker =
    if (observation.finalized && not (receipt_matches_final_facts receipt observation))
      || not (bool_eq receipt.truncated marker)
      || (observation.capture.truncated && observation.finalized && not marker)
    then failure capture_corrupt
    else pass tt

abbrev pub facts_from :
    Option ClosureReceipt → OutputObservation → CaptureStream → ℕ → ℕ → Bool → PageFacts
facts_from none observation stream offset retained marker = record {
  stream = stream;
  offset_bytes = offset;
  retained_bytes = retained;
  can_grow = sqlite_permits_growth observation && ltb retained output_capture_limit;
  available = true;
  truncated = marker;
  incomplete = observation.capture.incomplete;
  open_at_cutover = observation.capture.open_at_cutover;
}
facts_from (some receipt) observation stream offset retained marker = record {
  stream = stream;
  offset_bytes = offset;
  retained_bytes = retained;
  can_grow = false;
  available = true;
  truncated = receipt.truncated;
  incomplete = receipt.incomplete;
  open_at_cutover = receipt.open_at_cutover;
}

-- The bytes are asked for only if there are any.
unfoldable pub read_page : SnapshotSeen → PageFacts → Checked OutputEnvelope
read_page seen facts =
    if facts.offset_bytes == facts.retained_bytes
    then pass (success (page_data facts facts.offset_bytes []))
    else elim seen.read [
      | none ↦ failure output_read_failed
      | some bytes ↦
          if seen.bound_after then pass (paginate facts bytes) else failure capture_unavailable
    ]

abbrev pub unavailable_page : CaptureStream → StreamCaptureFacts → OutputData
unavailable_page stream facts = record {
  facts = record {
    stream = stream;
    offset_bytes = 0;
    retained_bytes = 0;
    can_grow = false;
    available = false;
    truncated = facts.truncated;
    incomplete = facts.incomplete;
    open_at_cutover = facts.open_at_cutover;
  };
  next_offset_bytes = 0;
  has_more = false;
  shown = [];
}

-- `readOutputSnapshot` once the workspace is open, then at a valid offset, then from its start.
unfoldable pub read_files :
    OutputObservation → CaptureStream → ℕ → SnapshotSeen → Checked OutputEnvelope
read_files observation stream offset seen = do
  raw ← check_raw seen
  inside ← check_offset offset raw.size
  let permits_growth = sqlite_permits_growth observation
  first ← check_marker (load_sidecar 0 seen.marker)
  receipt ←
      check_receipt stream raw permits_growth seen.parsed
        (load_sidecar closure_receipt_limit seen.closed)
  second ← marker_now receipt first (load_sidecar 0 seen.marker_again)
  marker ← settle_marker permits_growth raw.size receipt second
  checked ← check_final observation receipt marker
  read_page seen (facts_from receipt observation stream offset raw.size marker)

unfoldable pub read_at :
    OutputObservation → CaptureStream → SnapshotSeen → ℕ → Checked OutputEnvelope
read_at observation stream seen offset =
    if is_false observation.capture.available
    then (if ltb 0 offset
        then failure offset_out_of_range
        else pass (success (unavailable_page stream observation.capture)))
    else (if seen.workspace
        then read_files observation stream offset seen
        else failure capture_unavailable)

unfoldable pub read_output_snapshot :
    OutputObservation → CaptureStream → JsValue → SnapshotSeen → Checked OutputEnvelope
read_output_snapshot observation stream offset seen =
    valid_offset offset >>= read_at observation stream seen
