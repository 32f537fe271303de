-- ===== src/Snapshot/Facts.antt =====
-- src/output.ts: what a page says of a finalized job is what the store says.
use pi_watch.Base.{
  ℕ, Bool, true, false, Option, none, some, ◌==◌, ◌≡◌, refl, ap, sym, ◌∙◌, arith, Bool-cases, inl,
  inr, Option-cases,
}
use mathlib.Core.Bool.{false≢true}
use pi_watch.JobTypes.Validate.{JsValue}
use pi_watch.Evidence.Defs.{StreamCaptureFacts}
use pi_watch.Output.Page.{CaptureStream, PageFacts, OutputData, success}
use pi_watch.Output.Bounds.{paginate-IsBounded}
use pi_watch.Capture.Machine.{ClosureReceipt}
use pi_watch.Capture.Receipt.{closure_receipt_limit}
use pi_watch.Snapshot.Read.{
  Checked, pass, failure, ◌>>=◌, SnapshotSeen, OutputObservation, check_raw, check_offset,
  check_marker, check_receipt, marker_now, settle_marker, check_final, read_page, read_files,
  read_at, read_output_snapshot, valid_offset, facts_from, sqlite_permits_growth, is_false,
}
use pi_watch.Snapshot.Sidecar.{load_sidecar}

abbrev passes {ℓ} : {A : Type ℓ} → Checked A → Bool
passes (failure code) = false
passes (pass a) = true

pass-bind {ℓ μ} :
    {A : Type ℓ} {B : Type μ} (first : Checked A) (next : A → Checked B) {b : B}
    → (first >>= next) ≡ pass b
    → (a : A) × (first ≡ pass a) × (next a ≡ pass b)
pass-bind (failure code) next h = elim (false≢true (ap passes h)) [ ]
pass-bind (pass a) next h = (a, refl, h)

-- The facts of a page agree with those that the store has published.
pub record AgreesWith (facts : StreamCaptureFacts) (page : OutputData) : Type 0 where
  pub available : facts.available ≡ some page.facts.available
  pub truncated : page.facts.truncated ≡ facts.truncated
  pub incomplete : page.facts.incomplete ≡ facts.incomplete
  pub open_at_cutover : page.facts.open_at_cutover ≡ facts.open_at_cutover

read_page-facts :
    (seen : SnapshotSeen) (facts : PageFacts) {page : OutputData}
    → read_page seen facts ≡ pass (success page)
    → page.facts ≡ facts
unfolding read_page
read_page-facts seen facts {page} h =
    elim (Bool-cases (facts.offset_bytes == facts.retained_bytes)) [
      | inl at_end ↦ ground (arith, h, at_end)
      | inr before ↦ elim (Option-cases seen.read) [
        | inl unread ↦ ground (arith, h, before, unread)
        | inr (bytes, read) ↦
            let (cut, consumed, is_cut, good) = paginate-IsBounded facts bytes in
            ground (arith, h, before, read, is_cut, good.same_facts)
      ]
    ]

check_final-facts :
    (observation : OutputObservation) (receipt : Option ClosureReceipt) (stream : CaptureStream)
    (offset retained : ℕ) (marker : Bool)
    → observation.finalized ≡ true
    → check_final observation receipt marker ≡ pass tt
    → let facts = facts_from receipt observation stream offset retained marker in
      (observation.capture.available ≡ some facts.available)
      × (facts.truncated ≡ observation.capture.truncated)
      × (facts.incomplete ≡ observation.capture.incomplete)
      × (facts.open_at_cutover ≡ observation.capture.open_at_cutover)
unfolding check_final
check_final-facts observation none stream offset retained marker final h = ground (arith, final, h)
check_final-facts observation (some r) stream offset retained marker final h =
    ground (arith, final, h)

read_files-AgreesWith :
    (observation : OutputObservation) (stream : CaptureStream) (offset : ℕ) (seen : SnapshotSeen)
    {page : OutputData}
    → observation.finalized ≡ true
    → read_files observation stream offset seen ≡ pass (success page)
    → AgreesWith observation.capture page
unfolding read_files
read_files-AgreesWith observation stream offset seen {page} final h =
    let growth = sqlite_permits_growth observation in
    let (raw, e1, h1) = pass-bind (check_raw seen) _ h in
    let (inside, e2, h2) = pass-bind (check_offset offset raw.size) _ h1 in
    let (first, e3, h3) = pass-bind (check_marker (load_sidecar 0 seen.marker)) _ h2 in
    let (receipt, e4, h4) =
      pass-bind
        (check_receipt stream raw growth seen.parsed
          (load_sidecar closure_receipt_limit seen.closed))
        _ h3 in
    let (second, e5, h5) =
      pass-bind (marker_now receipt first (load_sidecar 0 seen.marker_again)) _ h4 in
    let (marker, e6, h6) = pass-bind (settle_marker growth raw.size receipt second) _ h5 in
    let (checked, e7, h7) = pass-bind (check_final observation receipt marker) _ h6 in
    let (available, truncated, incomplete, open_one) =
      check_final-facts observation receipt stream offset raw.size marker final e7 in
    let same = read_page-facts seen _ h7 in
    record {
      available = available ∙ ap (λ f. some f.available) (sym same);
      truncated = ap (λ f. f.truncated) same ∙ truncated;
      incomplete = ap (λ f. f.incomplete) same ∙ incomplete;
      open_at_cutover = ap (λ f. f.open_at_cutover) same ∙ open_one;
    }

-- A page of a finalized job says of the capture what the store has published of it, whatever the
-- files hold.
pub read_output_snapshot-AgreesWith :
    (observation : OutputObservation) (stream : CaptureStream) (offset : JsValue)
    (seen : SnapshotSeen) {page : OutputData}
    → observation.finalized ≡ true
    → read_output_snapshot observation stream offset seen ≡ pass (success page)
    → AgreesWith observation.capture page
unfolding read_output_snapshot read_at
read_output_snapshot-AgreesWith observation stream offset seen {page} final h =
    let (n, valid, at) = pass-bind (valid_offset offset) (read_at observation stream seen) h in
    elim (Bool-cases (is_false observation.capture.available)) [
      | inl gone ↦ ground (arith, gone, at)
      | inr there ↦
          read_files-AgreesWith observation stream n seen final (ground (arith, there, at))
    ]
