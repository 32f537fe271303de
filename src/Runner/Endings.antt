-- ===== src/Runner/Endings.antt =====
-- src/runner.ts: when the outcome is cut off, and how often it is published.
use pi_watch.Base.{
  ℕ, suc, ◌+◌, ◌≤◌, leb, Bool, true, false, ◌&&◌, ◌||◌, ◌==◌, Option, none, some, List, [], ◌∷◌,
  if◌then◌else◌, ◌≡◌, arith,
}
use pi_watch.Output.Page.{CaptureStream, standard_output, standard_error}
use pi_watch.Runner.Machine.{
  capture_cutover_ms, Runner, Effect, Publication, AttachedCapture, close, abandon,
}
use pi_watch.Runner.Machine
use pi_watch.Runner.Run

abbrev pub finals : List Effect → ℕ
finals [] = 0
finals (Machine.published task ∷ log) = (if task.is_final then 1 else 0) + finals log
finals (_ ∷ log) = finals log

abbrev pub freezes : List Effect → ℕ
freezes [] = 0
freezes (Machine.froze now ∷ log) = suc (freezes log)
freezes (_ ∷ log) = freezes log

-- A cutover began at least a second before this time.
abbrev pub cut_before : ℕ → List Effect → Bool
cut_before now [] = false
cut_before now (Machine.cut began ∷ log) =
    let rest = cut_before now log in if leb (began + capture_cutover_ms) now then true else rest
cut_before now (_ ∷ log) = cut_before now log

abbrev pub is_same : CaptureStream → CaptureStream → Bool
is_same standard_output standard_output = true
is_same standard_output standard_error = false
is_same standard_error standard_output = false
is_same standard_error standard_error = true

-- The capture of this stream was told that the stream failed.
abbrev pub has_failed : CaptureStream → List Effect → Bool
has_failed stream [] = false
has_failed stream (Machine.failed s ∷ log) = is_same s stream || has_failed stream log
has_failed stream (_ ∷ log) = has_failed stream log

-- The capture of this stream was asked for its seal.
abbrev pub is_asked : CaptureStream → List Effect → Bool
is_asked stream [] = false
is_asked stream (Machine.seal_asked s ∷ log) = is_same s stream || is_asked stream log
is_asked stream (_ ∷ log) = is_asked stream log

-- After a final publication nothing is published. After a freeze no capture gets a byte or an end,
-- and an error only when it was told of one before; a seal is asked for after a freeze, once for
-- each stream, and then its capture gets no error either. A freeze comes a second or more after its
-- cutover.
abbrev pub InOrder : List Effect → Type 0
InOrder [] = Unit
InOrder (Machine.published task ∷ log) = (finals log ≡ 0) × InOrder log
InOrder (Machine.accepted stream bytes ∷ log) = (freezes log ≡ 0) × InOrder log
InOrder (Machine.ended stream ∷ log) = (freezes log ≡ 0) × InOrder log
InOrder (Machine.failed stream ∷ log) =
    ((freezes log == 0 || has_failed stream log) ≡ true)
    × (is_asked stream log ≡ false)
    × InOrder log
InOrder (Machine.seal_asked stream ∷ log) =
    (freezes log ≡ 1) × (is_asked stream log ≡ false) × InOrder log
InOrder (Machine.froze now ∷ log) = (cut_before now log ≡ true) × InOrder log
InOrder (_ ∷ log) = InOrder log

abbrev final_task : Option Publication → Bool
final_task none = false
final_task (some task) = task.is_final

abbrev is_early : Machine.CoordinatorState → Bool
is_early Machine.observing = true
is_early Machine.cutting_over = true
is_early _ = false

-- The log tells of the error that a capture remembers.
abbrev is_told : CaptureStream → Option AttachedCapture → List Effect → Bool
is_told stream none log = true
is_told stream (some attached) log =
    if attached.has_capture && attached.failed then has_failed stream log else true

record IsOrderly (r : Runner) : Type 0 where
  ordered : InOrder r.log
  unpublished : r.is_closed ≡ false → final_task r.in_flight ≡ false → finals r.log ≡ 0
  one : finals r.log ≤ 1
  thawed : is_early r.coordinator ≡ true → freezes r.log ≡ 0
  once : freezes r.log ≤ 1
  unasked_output : freezes r.log ≡ 0 → is_asked standard_output r.log ≡ false
  unasked_error : freezes r.log ≡ 0 → is_asked standard_error r.log ≡ false
  told_output : is_told standard_output r.stdout_capture r.log ≡ true
  told_error : is_told standard_error r.stderr_capture r.log ≡ true
  over : r.coordinator ≡ Machine.closed → r.is_closed ≡ true
  due : (due : ℕ) → r.cutover_deadline ≡ some due → cut_before due r.log ≡ true

close-IsOrderly : (r : Runner) → IsOrderly r → IsOrderly (close r)
unfolding close
close-IsOrderly r s = ground (arith, s)

abandon-IsOrderly : (r : Runner) → IsOrderly r → IsOrderly (abandon r)
unfolding abandon close
abandon-IsOrderly r s = ground (arith, s)
