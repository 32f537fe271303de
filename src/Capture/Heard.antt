-- ===== src/Capture/Heard.antt =====
-- src/output-capture.ts: every event keeps a capture well formed.
use pi_watch.Base.{
  ℕ, ◌+◌, ◌-◌, min, ◌≤◌, true, false, none, List, [], ◌∷◌, ◌++◌, take, length, ltb, ◌≡◌, ◌≢◌, ap,
  ◌∙◌, sym, arith, length-append, length-take, take-length_prefix, take-length-take, append-nil,
  Bool-cases, inl, inr,
}
use pi_watch.Capture.Machine.{
  output_capture_limit, Source, no_marker, Capture, pump_loop, start_pump, pump_settled,
  observe_overflow, admit, accept, seal, invalidate_empty_staging,
}
use pi_watch.Capture.Kept.{IsKept, IsPumped, IsNext, is_ending, stored-accept}

-- How much of a chunk is admitted.
abbrev room : List ℕ → Capture → ℕ
room chunk c = min (output_capture_limit - length c.storage) (length chunk)

-- A chunk that comes when nothing was lost, from the facts alone that it needs.
accept-whole :
    (h chunk : List ℕ) (c : Capture)
    → 1 ≤ length chunk
    → c.intake_open ≡ true
    → c.capture_loss ≡ false
    → c.fd_open ≡ true
    → c.result ≡ none
    → c.drained_bytes ≡ length h
    → length c.raw ≤ length c.storage
    → length c.storage ≡ min output_capture_limit (length h)
    → c.overflow_observed ≡ ltb output_capture_limit (length h)
    → (c.overflow_observed ≡ true → c.marker ≢ no_marker)
    → let now = c.storage ++ take (room chunk c) chunk in
      now ≡ take output_capture_limit (h ++ chunk)
      → take (length now) (h ++ chunk) ≡ now
      → take (length c.raw) now ≡ c.raw
      → length now ≡ min output_capture_limit (length (h ++ chunk))
      → length (h ++ chunk) ≡ length h + length chunk
      → (room chunk c ≡ 0 → now ≡ c.storage)
      → IsKept (h ++ chunk) (accept chunk c)
unfolding accept admit observe_overflow start_pump pump_loop
accept-whole h chunk c some_bytes open_one whole fd new drained fewer level cut marked kept again
      written size sum full =
    ground arith

pub accept-IsKept :
    (h chunk : List ℕ) (c : Capture)
    → IsKept h c
    → c.intake_open ≡ true
    → IsKept (h ++ chunk) (accept chunk c)
unfolding accept
accept-IsKept h [] c s open_one = rw (append-nil h) (ground (arith, s))
accept-IsKept h (x ∷ xs) c s open_one = elim (Bool-cases c.capture_loss) [
  | inl lost ↦ ground (
    arith,
    s,
    lost,
    open_one,
    length-append h (x ∷ xs),
    take-length_prefix (length c.storage) h (x ∷ xs) s.short,
  )
  | inr whole ↦
      let chunk = x ∷ xs in
      let now = c.storage ++ take (room chunk c) chunk in
      let kept : now ≡ take output_capture_limit (h ++ chunk) =
        stored-accept output_capture_limit h c.storage chunk (s.whole whole) in
      let again : take (length now) (h ++ chunk) ≡ now =
        ap (λ xs. take (length xs) (h ++ chunk)) kept
        ∙ take-length-take output_capture_limit (h ++ chunk)
        ∙ sym kept in
      let level : length c.storage ≡ min output_capture_limit (length h) =
        ap (λ xs. length xs) (s.whole whole) ∙ length-take output_capture_limit h in
      let size : length now ≡ min output_capture_limit (length (h ++ chunk)) =
        ap (λ xs. length xs) kept ∙ length-take output_capture_limit (h ++ chunk) in
      accept-whole h chunk c (omega arith) open_one whole
        (ground (arith, whole, open_one, s.unlost, s.shut)) (s.shut open_one) s.drained s.fewer
        level (s.cut whole) s.marked kept again
        (take-length_prefix (length c.raw) c.storage (take (room chunk c) chunk) s.fewer
          ∙ sym s.written)
        size (length-append h chunk)
        (λ none_left. ap (λ k. c.storage ++ take k chunk) none_left ∙ append-nil c.storage)
]

-- `accept` issues a write while there is something to write.
pub accept-IsPumped :
    (h chunk : List ℕ) (c : Capture)
    → IsKept h c
    → IsPumped c
    → is_ending c.pump ≡ false
    → IsPumped (accept chunk c)
unfolding accept admit observe_overflow start_pump pump_loop
accept-IsPumped h chunk c s p started = ground (
  arith,
  s,
  p,
  started,
  length-append c.storage (take (room chunk c) chunk),
  length-take (room chunk c) chunk,
)

pub pump_settled-IsNext :
    (h : List ℕ) (c : Capture)
    → IsNext h c
    → IsNext h (pump_settled c) × (is_ending (pump_settled c).pump ≡ false)
unfolding pump_settled start_pump pump_loop
pump_settled-IsNext h c (s, p) = ground (arith, s, p)

pub seal-IsNext :
    (h : List ℕ) (source : Source) (c : Capture) → IsNext h c → IsNext h (seal source c)
unfolding seal
seal-IsNext h source c (s, p) = ground (arith, s, p)

pub invalidate_empty_staging-IsNext :
    (h : List ℕ) (c : Capture) → IsNext h c → IsNext h (invalidate_empty_staging c)
unfolding invalidate_empty_staging
invalidate_empty_staging-IsNext h c (s, p) = ground (arith, s, p)
