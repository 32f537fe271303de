-- ===== src/Snapshot/Sealed.antt =====
-- src/output.ts: a reader of a finalized job gets the output that its capture sealed.
use pi_watch.Base.{
  ℕ, ◌≤◌, ◌<◌, pos, Bool, true, false, some, List, [], length, ◌&&◌, ◌==◌, if◌then◌else◌, ◌≡◌, refl,
  arith,
}
use pi_watch.JobTypes.Validate.{number, integer}
use pi_watch.Output.Page.{PageFacts, OutputData, success, ends_here, paginate}
use pi_watch.Output.Progress.{paginate-progress}
use pi_watch.Output.Shown.{Shows, paginate-Shows}
use pi_watch.Output.Bounds.{IsBounded, paginate-IsBounded}
use pi_watch.Capture.Machine.{output_capture_limit, ClosureReceipt}
use pi_watch.Capture.Receipt.{closure_receipt_limit, receipt_json, is_incoherent}
use pi_watch.Capture.RoundTrip.{parsed_of, IsExact, parse_closure_receipt-canonical_receipt}
use pi_watch.Snapshot.Read.{
  check_marker, check_offset, marker_now, sqlite_permits_growth, valid_offset, read_at, is_false,
  pass, OutputObservation, SnapshotSeen, check_raw, check_receipt, settle_marker, check_final,
  read_page, read_files, read_output_snapshot, receipt_matches_final_facts,
}
use pi_watch.Snapshot.Sidecar.{LoadedArtifact, loaded, missing, load_sidecar}

-- The files that a sealed capture leaves, as a reader sees them.
pub record ShowsSealed (r : ClosureReceipt) (seen : SnapshotSeen) : Type 0 where
  pub raw :
      check_raw seen ≡ pass (record { size = r.retained_bytes; dev = r.raw_dev; ino = r.raw_ino })
  pub opened : seen.workspace ≡ true
  pub marker : load_sidecar 0 seen.marker ≡ (if r.truncated then loaded [] else missing)
  pub receipt : load_sidecar closure_receipt_limit seen.closed ≡ loaded (receipt_json r)
  pub parsed : seen.parsed ≡ some (parsed_of r)

settle_marker-receipt :
    (r : ClosureReceipt)
    → r.retained_bytes ≤ output_capture_limit
    → is_incoherent r ≡ false
    → settle_marker false r.retained_bytes (some r) r.truncated ≡ pass r.truncated
unfolding settle_marker is_incoherent
settle_marker-receipt r quota coherent = ground (arith, quota, coherent)

check_receipt-receipt_json :
    (r : ClosureReceipt) (growth : Bool)
    → IsExact r
    → is_incoherent r ≡ false
    → check_receipt r.stream
        (record { size = r.retained_bytes; dev = r.raw_dev; ino = r.raw_ino })
        growth
        (some (parsed_of r))
        (loaded (receipt_json r))
      ≡ pass (some r)
unfolding check_receipt
check_receipt-receipt_json r growth exact coherent =
    let read = (parse_closure_receipt-canonical_receipt r exact coherent).1 in ground (arith, read)

check_final-receipt :
    (r : ClosureReceipt) (observation : OutputObservation)
    → receipt_matches_final_facts r observation ≡ true
    → check_final observation (some r) r.truncated ≡ pass tt
unfolding check_final
check_final-receipt r observation match = ground (arith, match)

-- The page that a reader gets at an offset of a sealed file.
abbrev pub sealed_facts : ClosureReceipt → ℕ → PageFacts
sealed_facts r offset = record {
  stream = r.stream;
  offset_bytes = offset;
  retained_bytes = r.retained_bytes;
  can_grow = false;
  available = true;
  truncated = r.truncated;
  incomplete = r.incomplete;
  open_at_cutover = r.open_at_cutover;
}

marker_now-receipt :
    (r : ClosureReceipt) (again : LoadedArtifact)
    → marker_now (some r) r.truncated again ≡ pass r.truncated
marker_now-receipt r again = ground arith

check_marker-truncated : (b : Bool) → check_marker (if b then loaded [] else missing) ≡ pass b
check_marker-truncated true = refl
check_marker-truncated false = refl

read_files-sealed :
    (r : ClosureReceipt) (observation : OutputObservation) (seen : SnapshotSeen) (offset : ℕ)
    → IsExact r
    → is_incoherent r ≡ false
    → ShowsSealed r seen
    → observation.finalized ≡ true
    → receipt_matches_final_facts r observation ≡ true
    → offset ≤ r.retained_bytes
    → read_files observation r.stream offset seen ≡ read_page seen (sealed_facts r offset)
unfolding read_files
read_files-sealed r observation seen offset exact coherent shown final match inside =
    let no_growth : sqlite_permits_growth observation ≡ false = ground (arith, final) in
    let fits : check_offset offset r.retained_bytes ≡ pass tt = ground (arith, inside) in
    rw
      (
        shown.raw,
        fits,
        shown.marker,
        check_marker-truncated r.truncated,
        shown.receipt,
        shown.parsed,
        no_growth,
        check_receipt-receipt_json r false exact coherent,
        marker_now-receipt r (load_sidecar 0 seen.marker_again),
        settle_marker-receipt r exact.retained coherent,
        check_final-receipt r observation match,
      )
      refl

and-false : (b : Bool) → (b && false) ≡ false
and-false true = refl
and-false false = refl

-- A job that is finalized with the facts of a coherent receipt can be read: on the files that the
-- receipt describes, at any offset inside of them and on any bytes that are read there, the reader
-- gets the page that `paginate` cuts from these bytes, with the facts of the receipt. The page is
-- bounded, its text shows the bytes that it consumed, token by token, and it moves the reader on.
pub read_output_snapshot-sealed :
    (r : ClosureReceipt) (observation : OutputObservation) (seen : SnapshotSeen) (offset : ℕ)
    (bytes : List ℕ)
    → IsExact r
    → is_incoherent r ≡ false
    → ShowsSealed r seen
    → observation.finalized ≡ true
    → receipt_matches_final_facts r observation ≡ true
    → offset < r.retained_bytes
    → seen.read ≡ some bytes
    → 0 < length bytes
    → seen.bound_after ≡ true
    → (page : OutputData) × (consumed : ℕ) × (read_output_snapshot observation r.stream
          (number (integer (pos offset)))
          seen
        ≡ pass (success page))
      × (paginate (sealed_facts r offset) bytes ≡ success page)
      × IsBounded (sealed_facts r offset) bytes consumed page
      × Shows (sealed_facts r offset) bytes consumed page.shown
      × (offset < page.next_offset_bytes)
unfolding read_output_snapshot read_at read_page
read_output_snapshot-sealed r observation seen offset bytes exact coherent shown final match inside
      read some_bytes bound =
    let facts = sealed_facts r offset in
    let (page, consumed, cut, good) = paginate-IsBounded facts bytes in
    let files =
      read_files-sealed r observation seen offset exact coherent shown final match
        (omega (arith, inside)) in
    let valid : valid_offset (number (integer (pos offset))) ≡ pass offset =
      ground (arith, inside, exact.retained) in
    let there : is_false observation.capture.available ≡ false = ground (arith, match) in
    let more : (offset == r.retained_bytes) ≡ false = ground (arith, inside) in
    (
      page,
      consumed,
      rw (valid, there, files, more, read, bound, shown.opened, cut) refl,
      cut,
      good,
      paginate-Shows facts bytes consumed cut good.next,
      paginate-progress facts bytes some_bytes (and-false (ends_here facts bytes)) cut,
    )
