-- ===== src/Tests/Capture.antt =====
-- A capture of two bytes up to its seal, and the theorems about captures at it.
use pi_watch.Base.{text, text_eq, true, false, none, some, List, [], ◌∷◌, ◌≡◌, refl, arith}
use pi_watch.Output.Page.{standard_error}
use pi_watch.Capture.Machine.{
  output_capture_limit, FileIdentity, eof, capture_error, ClosureReceipt, CaptureResult, at_eof,
  at_cutover, opened, accept, admit, start_pump, pump_loop, pump_settled, write_ended, source_error,
  seal, observe_overflow,
}
use pi_watch.Capture.Seal.{
  Answers, Event, handle, step, run, finish_seal, receipt_of, closure_receipt,
}
use pi_watch.Capture.Seal
use pi_watch.Capture.Kept.{IsKept}
use pi_watch.Capture.Steps.{run-IsKept}
use pi_watch.Capture.Receipt.{
  decimal, receipt_json, canonical_receipt, parse_closure_receipt, canonical, keys_match,
  read_values, is_incoherent, no_object,
}
use pi_watch.Capture.RoundTrip.{parsed_of, parse_closure_receipt-only}
use pi_watch.Capture.Truth.{TellsTruth}
use pi_watch.Capture.Final.{run-TellsTruth, run-parse_closure_receipt}

abbrev identity : FileIdentity
identity = record { dev = 5; ino = 77 }

abbrev good : Answers
good = record {
  synced = true;
  closed = true;
  marker_bound = false;
  verified = true;
  raw_size = some 2;
  published = true;
}

abbrev two_bytes : List Event
two_bytes =
    Seal.chunk_read (65 ∷ [])
    ∷ Seal.chunk_read (66 ∷ [])
    ∷ Seal.wrote (some 1)
    ∷ Seal.wrote (some 1)
    ∷ Seal.seal_asked at_eof
    ∷ Seal.chunk_read (67 ∷ [])
    ∷ Seal.seal_finished good
    ∷ []

abbrev pub receipt : ClosureReceipt
receipt = record {
  stream = standard_error;
  retained_bytes = 2;
  truncated = false;
  incomplete = false;
  open_at_cutover = false;
  reason = eof;
  raw_dev = 5;
  raw_ino = 77;
}

abbrev sealed : CaptureResult
sealed = record {
  available = true;
  truncated = false;
  incomplete = false;
  open_at_cutover = false;
  retained_bytes = 2;
  drained_bytes = 2;
  receipt = some receipt;
  telemetry = record {
    max_pending_writes = 1;
    max_buffers = 2;
    max_reserved_bytes = 2;
    accept_callbacks = 2;
    pump_starts = 1;
    write_attempts = 2;
  };
}

two_bytes-sealed : (run two_bytes (opened standard_error (some identity))).result ≡ some sealed
unfolding run step handle accept admit start_pump pump_loop pump_settled write_ended seal
    finish_seal receipt_of closure_receipt observe_overflow output_capture_limit
two_bytes-sealed = refl

-- A source that failed leaves a receipt that says so.
failed_source :
    (run
      (Seal.source_failed
        ∷ Seal.seal_asked at_cutover
        ∷ Seal.seal_finished (record good { raw_size = some 0 })
        ∷ [])
      (opened standard_error (some identity))).result
    ≡ some (record sealed {
      incomplete = true;
      open_at_cutover = true;
      retained_bytes = 0;
      drained_bytes = 0;
      receipt = some (record receipt {
        retained_bytes = 0;
        incomplete = true;
        open_at_cutover = true;
        reason = capture_error;
      });
      telemetry = record {
        max_pending_writes = 0;
        max_buffers = 0;
        max_reserved_bytes = 0;
        accept_callbacks = 0;
        pump_starts = 0;
        write_attempts = 0;
      };
    })
unfolding run step handle source_error pump_settled seal finish_seal receipt_of closure_receipt
failed_source = refl

receipt_text :
    receipt_json receipt
    ≡ text
        "{\"version\":1,\"stream\":\"stderr\",\"retainedBytes\":2,\"truncated\":false,\"incomplete\":false,\"openAtCutover\":false,\"reason\":\"eof\",\"rawDev\":5,\"rawIno\":77}"
unfolding receipt_json decimal
receipt_text = refl

no_receipt : parse_closure_receipt (some no_object) (text "[]") standard_error ≡ none
unfolding parse_closure_receipt canonical
no_receipt = refl

parsed_receipt :
    parse_closure_receipt (some (parsed_of receipt)) (receipt_json receipt) standard_error
    ≡ some receipt
unfolding parse_closure_receipt canonical keys_match read_values is_incoherent receipt_json decimal
    text_eq output_capture_limit
parsed_receipt = refl

run-IsKept_example : IsKept (65 ∷ 66 ∷ []) (run two_bytes (opened standard_error (some identity)))
run-IsKept_example = run-IsKept standard_error (some identity) two_bytes

run-TellsTruth_example :
    TellsTruth
      (65 ∷ 66 ∷ [])
      (run two_bytes (opened standard_error (some identity))).raw
      identity
      receipt
run-TellsTruth_example = run-TellsTruth standard_error identity two_bytes two_bytes-sealed refl

run-parse_closure_receipt_example :
    (canonical_receipt receipt ≡ some (receipt_json receipt))
    × (parse_closure_receipt (some (parsed_of receipt)) (receipt_json receipt) standard_error
        ≡ some receipt)
run-parse_closure_receipt_example =
    run-parse_closure_receipt standard_error identity two_bytes (omega arith) (omega arith)
      two_bytes-sealed refl

parse_closure_receipt-only_example :
    (receipt_json receipt ≡ receipt_json receipt)
    × (standard_error ≡ standard_error)
    × (is_incoherent receipt ≡ false)
parse_closure_receipt-only_example =
    parse_closure_receipt-only (some (parsed_of receipt)) (receipt_json receipt) standard_error
      parsed_receipt
