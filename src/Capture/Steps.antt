-- ===== src/Capture/Steps.antt =====
-- src/output-capture.ts: any sequence of events keeps a capture well formed.
use pi_watch.Base.{
  ℕ, Bool, true, false, ◌&&◌, Option, none, List, [], ◌∷◌, ◌++◌, if◌then◌else◌, ◌≡◌, refl, ap, ◌∙◌,
  sym, arith, append-nil, Bool-cases, inl, inr,
}
use pi_watch.Output.Page.{CaptureStream}
use pi_watch.Capture.Machine.{
  FileIdentity, Capture, opened, accept, source_error, write_ended, marker_ended, seal,
  invalidate_empty_staging, pump_settled, admit, start_pump, pump_loop, observe_overflow,
}
use pi_watch.Capture.Seal.{Answers, receipt_of, finish_seal, Event, handle, step, run}
use pi_watch.Capture.Seal
use pi_watch.Capture.Kept.{
  IsKept, IsPumped, IsNext, is_ending, source_error-IsKept, marker_ended-IsKept, write_ended-IsNext,
  opened-IsKept,
}
use pi_watch.Capture.Heard.{
  accept-IsKept, accept-IsPumped, pump_settled-IsNext, seal-IsNext, invalidate_empty_staging-IsNext,
}

-- The bytes that an event brings, and whether the intake stays open after it.
abbrev pub bytes_of : Event → List ℕ
bytes_of (Seal.chunk_read chunk) = chunk
bytes_of _ = []

abbrev pub stays_open : Event → Bool
stays_open (Seal.seal_asked source) = false
stays_open Seal.invalidate_asked = false
stays_open _ = true

abbrev pub heard_from : Bool → List Event → List ℕ
heard_from intake [] = []
heard_from intake (e ∷ events) =
    (if intake then bytes_of e else []) ++ heard_from (intake && stays_open e) events

-- The bytes that come before the capture is sealed or invalidated.
abbrev pub heard : List Event → List ℕ
heard events = heard_from true events

pub record IsWell (h : List ℕ) (c : Capture) : Type 0 where
  pub kept : IsKept h c
  pub pumped : IsPumped c
  pub begun : is_ending c.pump ≡ false
  pub unasked : c.intake_open ≡ true → c.sealing ≡ none

pub append_assoc : (xs ys zs : List ℕ) → (xs ++ ys) ++ zs ≡ xs ++ (ys ++ zs)
append_assoc [] ys zs = refl
append_assoc (x ∷ xs) ys zs = ap (λ l. x ∷ l) (append_assoc xs ys zs)

pub handle-intake :
    (e : Event) (c : Capture)
    → ((handle e c).intake_open ≡ (c.intake_open && stays_open e))
      × (c.intake_open && stays_open e ≡ true → (handle e c).sealing ≡ c.sealing)
unfolding handle accept admit observe_overflow start_pump pump_loop source_error write_ended
    marker_ended seal invalidate_empty_staging finish_seal
handle-intake (Seal.chunk_read chunk) c = ground arith
handle-intake Seal.source_failed c = ground arith
handle-intake (Seal.wrote outcome) c = ground arith
handle-intake (Seal.marker_done outcome) c = ground arith
handle-intake (Seal.seal_asked source) c = ground arith
handle-intake Seal.invalidate_asked c = ground arith
handle-intake (Seal.seal_finished answers) c = ground arith

pump_settled-intake :
    (c : Capture)
    → ((pump_settled c).intake_open ≡ c.intake_open) × ((pump_settled c).sealing ≡ c.sealing)
unfolding pump_settled start_pump pump_loop
pump_settled-intake c = ground arith

source_error-IsNext : (h : List ℕ) (c : Capture) → IsWell h c → IsNext h (source_error c)
unfolding source_error
source_error-IsNext h c s = (source_error-IsKept h c s.kept, ground (arith, s.pumped))

marker_ended-IsNext :
    (h : List ℕ) (outcome : Option Bool) (c : Capture)
    → IsWell h c
    → IsNext h (marker_ended outcome c)
unfolding marker_ended
marker_ended-IsNext h outcome c s =
    (marker_ended-IsKept h outcome c s.kept, ground (arith, s.pumped))

finish_seal-IsNext :
    (h : List ℕ) (answers : Answers) (c : Capture) → IsWell h c → IsNext h (finish_seal answers c)
unfolding finish_seal
finish_seal-IsNext h answers c s = ground (arith, s)

handle_open :
    (h : List ℕ) (e : Event) (c : Capture)
    → IsWell h c
    → c.intake_open ≡ true
    → IsNext (h ++ bytes_of e) (handle e c)
unfolding handle
handle_open h (Seal.chunk_read chunk) c s open_one =
    (accept-IsKept h chunk c s.kept open_one, accept-IsPumped h chunk c s.kept s.pumped s.begun)
handle_open h Seal.source_failed c s open_one = rw (append-nil h) (source_error-IsNext h c s)
handle_open h (Seal.wrote outcome) c s open_one =
    rw (append-nil h) (write_ended-IsNext h outcome c s.kept s.pumped)
handle_open h (Seal.marker_done outcome) c s open_one =
    rw (append-nil h) (marker_ended-IsNext h outcome c s)
handle_open h (Seal.seal_asked source) c s open_one =
    rw (append-nil h) (seal-IsNext h source c (s.kept, s.pumped))
handle_open h Seal.invalidate_asked c s open_one =
    rw (append-nil h) (invalidate_empty_staging-IsNext h c (s.kept, s.pumped))
handle_open h (Seal.seal_finished answers) c s open_one =
    rw (append-nil h) (finish_seal-IsNext h answers c s)

accept-shut : (chunk : List ℕ) (c : Capture) → c.intake_open ≡ false → accept chunk c ≡ c
unfolding accept
accept-shut chunk c shut = ground (arith, shut)

handle_shut :
    (h : List ℕ) (e : Event) (c : Capture)
    → IsWell h c
    → c.intake_open ≡ false
    → IsNext h (handle e c)
unfolding handle
handle_shut h (Seal.chunk_read chunk) c s shut = rw (accept-shut chunk c shut) (s.kept, s.pumped)
handle_shut h Seal.source_failed c s shut = source_error-IsNext h c s
handle_shut h (Seal.wrote outcome) c s shut = write_ended-IsNext h outcome c s.kept s.pumped
handle_shut h (Seal.marker_done outcome) c s shut = marker_ended-IsNext h outcome c s
handle_shut h (Seal.seal_asked source) c s shut = seal-IsNext h source c (s.kept, s.pumped)
handle_shut h Seal.invalidate_asked c s shut =
    invalidate_empty_staging-IsNext h c (s.kept, s.pumped)
handle_shut h (Seal.seal_finished answers) c s shut = finish_seal-IsNext h answers c s

handle-IsNext :
    (h : List ℕ) (e : Event) (c : Capture)
    → IsWell h c
    → IsNext (h ++ (if c.intake_open then bytes_of e else [])) (handle e c)
unfolding handle
handle-IsNext h e c s = elim (Bool-cases c.intake_open) [
  | inl open_one ↦
      let all = ap (λ b. if b then bytes_of e else []) open_one in
      rw all (handle_open h e c s open_one)
  | inr shut ↦
      let nothing = ap (λ b. if b then bytes_of e else []) shut in
      rw (nothing, append-nil h) (handle_shut h e c s shut)
]

pub step-IsWell :
    (h : List ℕ) (e : Event) (c : Capture)
    → IsWell h c
    → IsWell (h ++ (if c.intake_open then bytes_of e else [])) (step e c)
unfolding step
step-IsWell h e c s =
    let heard_now = h ++ (if c.intake_open then bytes_of e else []) in
    let ((kept, pumped), begun) =
      pump_settled-IsNext heard_now (handle e c) (handle-IsNext h e c s) in
    record {
      kept = kept;
      pumped = pumped;
      begun = begun;
      unasked = ground (arith, handle-intake e c, pump_settled-intake (handle e c), s.unasked);
    }

pub step-intake :
    (e : Event) (c : Capture) → (step e c).intake_open ≡ (c.intake_open && stays_open e)
unfolding step
step-intake e c = (pump_settled-intake (handle e c)).0 ∙ (handle-intake e c).0

pub run-IsWell :
    (h : List ℕ) (events : List Event) (c : Capture)
    → IsWell h c
    → IsWell (h ++ heard_from c.intake_open events) (run events c)
unfolding run
run-IsWell h [] c s = rw (append-nil h) s
run-IsWell h (e ∷ events) c s =
    let now = if c.intake_open then bytes_of e else [] in
    rw
      (
        sym (append_assoc h now (heard_from (c.intake_open && stays_open e) events)),
        sym (step-intake e c),
      )
      (run-IsWell (h ++ now) events (step e c) (step-IsWell h e c s))

pub opened-IsWell :
    (stream : CaptureStream) (identity : Option FileIdentity) → IsWell [] (opened stream identity)
opened-IsWell stream identity = record {
  kept = opened-IsKept stream identity;
  pumped = record { fits = omega arith; quiet = λ h i j. refl };
  begun = refl;
  unasked = λ h. refl;
}

-- Whatever happens to a capture, it has stored the first bytes that it heard, at most as many as
-- the limit, and written the first of those; it observes an overflow only if more came, and until
-- it loses a byte otherwise it stores all up to the limit and observes every overflow.
pub run-IsKept :
    (stream : CaptureStream) (identity : Option FileIdentity) (events : List Event)
    → IsKept (heard events) (run events (opened stream identity))
run-IsKept stream identity events =
    (run-IsWell [] events (opened stream identity) (opened-IsWell stream identity)).kept
