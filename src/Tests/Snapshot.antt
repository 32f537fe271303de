-- ===== src/Tests/Snapshot.antt =====
-- A reader of the file that a capture sealed, and the theorems about readers at it.
use pi_watch.Base.{ℕ, ◌<◌, pos, true, false, none, some, [], ◌∷◌, ◌≡◌, refl, arith}
use pi_watch.JobTypes.Validate.{number, integer, undefined}
use pi_watch.Output.Page.{OutputData, success, standard_error, paginate}
use pi_watch.Output.Bounds.{IsBounded}
use pi_watch.Output.Shown.{Shows}
use pi_watch.Capture.Machine.{output_capture_limit}
use pi_watch.Capture.Receipt.{receipt_json, is_incoherent}
use pi_watch.Capture.RoundTrip.{IsExact, parsed_of}
use pi_watch.Snapshot.Read.{
  pass, failure, capture_corrupt, SnapshotSeen, OutputObservation, check_raw, read_output_snapshot,
  read_at, read_files, check_receipt, check_final, settle_marker, unavailable_page,
}
use pi_watch.Snapshot.Sidecar.{present, absent, FileSeen, SidecarSeen, load_sidecar}
use pi_watch.Snapshot.Sealed.{ShowsSealed, sealed_facts, read_output_snapshot-sealed}
use pi_watch.Snapshot.Facts.{AgreesWith, read_output_snapshot-AgreesWith}
use pi_watch.Tests.Capture.{receipt}

abbrev raw_file : FileSeen
raw_file = record { size = 2; dev = 5; ino = 77 }

abbrev receipt_file : FileSeen
receipt_file = record { size = 146; dev = 5; ino = 78 }

abbrev no_file : SidecarSeen
no_file = record {
  lstat = absent;
  inspected = none;
  opened = none;
  bytes = none;
  size_after = none;
  bound = false;
}

abbrev files : SnapshotSeen
files = record {
  workspace = true;
  inspected = some raw_file;
  stat = some (record { is_file = true; seen = raw_file });
  bound = true;
  marker = no_file;
  closed = record {
    lstat = present;
    inspected = some receipt_file;
    opened = some (record { is_file = true; seen = receipt_file });
    bytes = some (receipt_json receipt);
    size_after = some 146;
    bound = true;
  };
  parsed = some (parsed_of receipt);
  marker_again = no_file;
  read = some (66 ∷ []);
  bound_after = true;
}

abbrev published : OutputObservation
published = record {
  finalized = true;
  capture = record {
    available = some true;
    truncated = false;
    incomplete = false;
    open_at_cutover = false;
  };
}

files-ShowsSealed : ShowsSealed receipt files
unfolding check_raw load_sidecar output_capture_limit
files-ShowsSealed = record {
  raw = refl;
  opened = refl;
  marker = refl;
  receipt = refl;
  parsed = refl;
}

receipt-IsExact : IsExact receipt
unfolding output_capture_limit
receipt-IsExact = record { retained = omega arith; dev = omega arith; ino = omega arith }

receipt-coherent : is_incoherent receipt ≡ false
unfolding is_incoherent
receipt-coherent = refl

read_output_snapshot-sealed_example :
    (page : OutputData) × (consumed : ℕ) × (read_output_snapshot published standard_error
        (number (integer (pos 1)))
        files
      ≡ pass (success page))
    × (paginate (sealed_facts receipt 1) (66 ∷ []) ≡ success page)
    × IsBounded (sealed_facts receipt 1) (66 ∷ []) consumed page
    × Shows (sealed_facts receipt 1) (66 ∷ []) consumed page.shown
    × (1 < page.next_offset_bytes)
read_output_snapshot-sealed_example =
    read_output_snapshot-sealed receipt published files 1 (66 ∷ []) receipt-IsExact receipt-coherent
      files-ShowsSealed refl refl (omega arith) refl (omega arith) refl

abbrev lost : OutputObservation
lost = record published {
  capture = record {
    available = some false;
    truncated = false;
    incomplete = true;
    open_at_cutover = true;
  };
}

lost_page :
    read_output_snapshot lost standard_error undefined files
    ≡ pass (success (unavailable_page standard_error lost.capture))
unfolding read_output_snapshot read_at
lost_page = refl

-- A finalized job whose receipt is gone.
corrupt_page :
    read_output_snapshot published standard_error undefined (record files { closed = no_file })
    ≡ failure capture_corrupt
unfolding read_output_snapshot read_at read_files check_raw load_sidecar check_receipt check_final
    settle_marker output_capture_limit
corrupt_page = refl

read_output_snapshot-AgreesWith_example :
    AgreesWith lost.capture (unavailable_page standard_error lost.capture)
read_output_snapshot-AgreesWith_example =
    read_output_snapshot-AgreesWith lost standard_error undefined files refl lost_page
