-- ===== src/Capture/Final.antt =====
-- src/output-capture.ts: what `seal` returns, whatever came before it and whatever comes after.
use pi_watch.Base.{
  ℕ, true, false, ◌&&◌, none, some, is_some, List, [], ◌∷◌, ◌++◌, ◌≤◌, if◌then◌else◌, ◌≡◌, ◌⊎◌,
  refl, ap, ◌∙◌, sym, arith, append-nil, inl, inr, Option-cases,
}
use pi_watch.Output.Page.{CaptureStream}
use pi_watch.Capture.Machine.{
  FileIdentity, ClosureReceipt, CaptureResult, Source, Capture, opened, is_idle, accept,
  source_error, write_ended, marker_ended, seal, invalidate_empty_staging, pump_settled, admit,
  start_pump, pump_loop, observe_overflow,
}
use pi_watch.Capture.Receipt.{
  receipt_json, canonical_receipt, parse_closure_receipt, max_safe_integer,
}
use pi_watch.Capture.RoundTrip.{parsed_of, parse_closure_receipt-canonical_receipt}
use pi_watch.Capture.Seal.{
  Answers, receipt_of, closure_receipt, finish_seal, Event, handle, step, run,
}
use pi_watch.Capture.Seal
use pi_watch.Capture.Steps.{
  heard, heard_from, bytes_of, stays_open, IsWell, opened-IsWell, step-IsWell, step-intake,
  append_assoc,
}
use pi_watch.Capture.Truth.{TellsTruth, closure_receipt-TellsTruth}

receipt_of-closure_receipt :
    (source : Source) (answers : Answers) (identity : FileIdentity) (c : Capture)
    {r : ClosureReceipt}
    → c.raw_identity ≡ some identity
    → receipt_of source answers c ≡ some r
    → closure_receipt source answers identity c ≡ r
unfolding receipt_of
receipt_of-closure_receipt source answers identity c {r} known h = ground (arith, known, h)

finish_seal-TellsTruth :
    (h : List ℕ) (identity : FileIdentity) (answers : Answers) (c : Capture) {res : CaptureResult}
    {r : ClosureReceipt}
    → IsWell h c
    → c.raw_identity ≡ some identity
    → c.result ≡ none
    → (finish_seal answers c).result ≡ some res
    → res.receipt ≡ some r
    → ((finish_seal answers c).raw ≡ c.raw) × TellsTruth h c.raw identity r
unfolding finish_seal
finish_seal-TellsTruth h identity answers c {res} {r} s known new sealed made =
    elim (Option-cases c.sealing) [
      | inl unasked ↦ ground (arith, unasked, new, sealed)
      | inr (source, asked) ↦
          let rest : is_idle c.pump ≡ true = ground (arith, asked, new, sealed) in
          let same : receipt_of source answers c ≡ some r =
            ground (arith, asked, new, sealed, made) in
          (
            ground arith,
            rw (sym (receipt_of-closure_receipt source answers identity c known same))
                (closure_receipt-TellsTruth h source answers identity c s rest new),
          )
    ]

-- Nothing that a sealed capture has written changes.
handle-sealed :
    (e : Event) (c : Capture)
    → is_some c.result ≡ true
    → is_idle c.pump ≡ true
    → c.intake_open ≡ false
    → let next = handle e c in
      (next.result ≡ c.result) × (next.raw ≡ c.raw) × (is_idle next.pump ≡ true)
unfolding handle accept source_error write_ended marker_ended seal invalidate_empty_staging
    finish_seal
handle-sealed (Seal.chunk_read chunk) c done rest shut = ground arith
handle-sealed Seal.source_failed c done rest shut = ground arith
handle-sealed (Seal.wrote outcome) c done rest shut = ground arith
handle-sealed (Seal.marker_done outcome) c done rest shut = ground arith
handle-sealed (Seal.seal_asked source) c done rest shut = ground arith
handle-sealed Seal.invalidate_asked c done rest shut = ground arith
handle-sealed (Seal.seal_finished answers) c done rest shut = ground arith

handle-raw_identity : (e : Event) (c : Capture) → (handle e c).raw_identity ≡ c.raw_identity
unfolding handle accept admit observe_overflow start_pump pump_loop source_error write_ended
    marker_ended seal invalidate_empty_staging finish_seal
handle-raw_identity (Seal.chunk_read chunk) c = ground arith
handle-raw_identity Seal.source_failed c = ground arith
handle-raw_identity (Seal.wrote outcome) c = ground arith
handle-raw_identity (Seal.marker_done outcome) c = ground arith
handle-raw_identity (Seal.seal_asked source) c = ground arith
handle-raw_identity Seal.invalidate_asked c = ground arith
handle-raw_identity (Seal.seal_finished answers) c = ground arith

pump_settled-sealed :
    (c : Capture)
    → ((pump_settled c).result ≡ c.result)
      × ((pump_settled c).raw ≡ c.raw)
      × ((pump_settled c).raw_identity ≡ c.raw_identity)
      × (is_idle c.pump ≡ true → is_idle (pump_settled c).pump ≡ true)
unfolding pump_settled start_pump pump_loop
pump_settled-sealed c = ground arith

record IsSealed (h : List ℕ) (identity : FileIdentity) (c : Capture) : Type 0 where
  well : IsWell h c
  known : c.raw_identity ≡ some identity
  resting : is_some c.result ≡ true → is_idle c.pump ≡ true
  truth :
      (res : CaptureResult) (r : ClosureReceipt)
      → c.result ≡ some res
      → res.receipt ≡ some r
      → TellsTruth h c.raw identity r

-- An event other than the end of `seal` gives no result.
handle-unsealed :
    (e : Event) (c : Capture)
    → c.result ≡ none
    → ((handle e c).result ≡ none) ⊎ ((answers : Answers) × (handle e c ≡ finish_seal answers c))
unfolding handle accept admit observe_overflow start_pump pump_loop source_error write_ended
    marker_ended seal invalidate_empty_staging
handle-unsealed (Seal.chunk_read chunk) c new = inl (ground (arith, new))
handle-unsealed Seal.source_failed c new = inl new
handle-unsealed (Seal.wrote outcome) c new = inl (ground (arith, new))
handle-unsealed (Seal.marker_done outcome) c new = inl (ground (arith, new))
handle-unsealed (Seal.seal_asked source) c new = inl new
handle-unsealed Seal.invalidate_asked c new = inl new
handle-unsealed (Seal.seal_finished answers) c new = inr (answers, refl)

finish_seal-resting :
    (answers : Answers) (c : Capture)
    → c.result ≡ none
    → is_some (finish_seal answers c).result ≡ true
    → is_idle (finish_seal answers c).pump ≡ true
unfolding finish_seal
finish_seal-resting answers c new sealed = ground (arith, new, sealed)

finish_seal-shut :
    (h : List ℕ) (answers : Answers) (c : Capture) {res : CaptureResult}
    → IsWell h c
    → c.result ≡ none
    → (finish_seal answers c).result ≡ some res
    → c.intake_open ≡ false
unfolding finish_seal
finish_seal-shut h answers c {res} s new sealed = ground (arith, new, sealed, s.unasked)

-- What an event hears.
abbrev now_heard : List ℕ → Event → Capture → List ℕ
now_heard h e c = h ++ (if c.intake_open then bytes_of e else [])

now_heard-shut :
    (h : List ℕ) (e : Event) (c : Capture) → c.intake_open ≡ false → now_heard h e c ≡ h
now_heard-shut h e c shut = ap (λ b. h ++ (if b then bytes_of e else [])) shut ∙ append-nil h

step-truth :
    (h : List ℕ) (identity : FileIdentity) (e : Event) (c : Capture) (res : CaptureResult)
    (r : ClosureReceipt)
    → IsSealed h identity c
    → (handle e c).result ≡ some res
    → res.receipt ≡ some r
    → TellsTruth (now_heard h e c) (handle e c).raw identity r
step-truth h identity e c res r s sealed made = elim (Option-cases c.result) [
  | inl new ↦ elim (handle-unsealed e c new) [
    | inl still ↦ ground (arith, still, sealed)
    | inr (answers, same) ↦
        let ended : (finish_seal answers c).result ≡ some res =
          ap (λ k. k.result) (sym same) ∙ sealed in
        let (kept, true_one) =
          finish_seal-TellsTruth h identity answers c s.well s.known new ended made in
        rw (now_heard-shut h e c (finish_seal-shut h answers c s.well new ended), same, kept)
          true_one
  ]
  | inr (old, had) ↦
      let shut : c.intake_open ≡ false = ground (arith, s.well.kept.shut, had) in
      let was : is_some c.result ≡ true = ground (arith, had) in
      let (same, raw, rest) = handle-sealed e c was (s.resting was) shut in
      rw (now_heard-shut h e c shut, raw) (s.truth res r (sym same ∙ sealed) made)
]

handle-resting :
    (h : List ℕ) (identity : FileIdentity) (e : Event) (c : Capture)
    → IsSealed h identity c
    → is_some (handle e c).result ≡ true
    → is_idle (handle e c).pump ≡ true
handle-resting h identity e c s sealed = elim (Option-cases c.result) [
  | inl new ↦ elim (handle-unsealed e c new) [
    | inl still ↦ ground (arith, still, sealed)
    | inr (answers, same) ↦
        rw same (finish_seal-resting answers c new (ap (λ k. is_some k.result) (sym same) ∙ sealed))
  ]
  | inr (old, had) ↦
      let shut : c.intake_open ≡ false = ground (arith, s.well.kept.shut, had) in
      let was : is_some c.result ≡ true = ground (arith, had) in
      (handle-sealed e c was (s.resting was) shut).2
]

step-IsSealed :
    (h : List ℕ) (identity : FileIdentity) (e : Event) (c : Capture)
    → IsSealed h identity c
    → IsSealed (now_heard h e c) identity (step e c)
unfolding step
step-IsSealed h identity e c s =
    let (same, raw, file, rest) = pump_settled-sealed (handle e c) in
    record {
      well = step-IsWell h e c s.well;
      known = file ∙ handle-raw_identity e c ∙ s.known;
      resting = λ sealed.
          rest (handle-resting h identity e c s (ap (λ o. is_some o) (sym same) ∙ sealed));
      truth =
          λ res r sealed made. rw raw (step-truth h identity e c res r s (sym same ∙ sealed) made);
    }

run-IsSealed :
    (h : List ℕ) (identity : FileIdentity) (events : List Event) (c : Capture)
    → IsSealed h identity c
    → IsSealed (h ++ heard_from c.intake_open events) identity (run events c)
unfolding run
run-IsSealed h identity [] c s = rw (append-nil h) s
run-IsSealed h identity (e ∷ events) c s =
    let now = if c.intake_open then bytes_of e else [] in
    rw
      (
        sym (append_assoc h now (heard_from (c.intake_open && stays_open e) events)),
        sym (step-intake e c),
      )
      (run-IsSealed (h ++ now) identity events (step e c) (step-IsSealed h identity e c s))

opened-IsSealed :
    (stream : CaptureStream) (identity : FileIdentity)
    → IsSealed [] identity (opened stream (some identity))
opened-IsSealed stream identity = record {
  well = opened-IsWell stream (some identity);
  known = refl;
  resting = λ h. ground (arith, h);
  truth = λ res r sealed made. ground (arith, sealed);
}

-- However reads, writes and failures interleave, a closure receipt that `seal` returns says what
-- the raw file holds: the first bytes that were read, within the quota, all of them up to the quota
-- unless the reason is a capture error, and cut only if more were read. It is coherent.
pub run-TellsTruth :
    (stream : CaptureStream) (identity : FileIdentity) (events : List Event) {res : CaptureResult}
    {r : ClosureReceipt}
    → let last = run events (opened stream (some identity)) in
      last.result ≡ some res → res.receipt ≡ some r → TellsTruth (heard events) last.raw identity r
run-TellsTruth stream identity events {res} {r} sealed made =
    (run-IsSealed [] identity events (opened stream (some identity))
        (opened-IsSealed stream identity)).truth
      res r sealed made

-- The file of a receipt that `seal` returns is read back as this receipt, if the numbers of the raw
-- file are safe integers.
pub run-parse_closure_receipt :
    (stream : CaptureStream) (identity : FileIdentity) (events : List Event) {res : CaptureResult}
    {r : ClosureReceipt}
    → identity.dev ≤ max_safe_integer
    → identity.ino ≤ max_safe_integer
    → (run events (opened stream (some identity))).result ≡ some res
    → res.receipt ≡ some r
    → (canonical_receipt r ≡ some (receipt_json r))
      × (parse_closure_receipt (some (parsed_of r)) (receipt_json r) r.stream ≡ some r)
run-parse_closure_receipt stream identity events {res} {r} dev ino sealed made =
    let t = run-TellsTruth stream identity events sealed made in
    parse_closure_receipt-canonical_receipt r
      (record {
        retained = omega (arith, t.size, t.quota);
        dev = omega (arith, t.dev, dev);
        ino = omega (arith, t.ino, ino);
      })
      t.coherent
