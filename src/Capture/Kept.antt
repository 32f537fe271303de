-- ===== src/Capture/Kept.antt =====
-- src/output-capture.ts: what a capture has kept of the bytes it heard.
use pi_watch.Base.{
  ℕ, ◌+◌, ◌-◌, min, ◌≤◌, ◌<◌, Bool, true, false, Option, none, some, List, [], ◌++◌, take, drop,
  length, ltb, ◌≡◌, ◌≢◌, refl, ap, ◌∙◌, sym, arith, length-append, length-take, length-drop,
  take-append, take-min, take-drop, take-nil, ◌⊎◌, ◌||◌, Bool-cases, inl, inr, ◌==◌,
}
use pi_watch.Output.Page.{CaptureStream}
use pi_watch.Capture.Machine.{
  output_capture_limit, Pump, idle, ending, writing, no_marker, Capture, opened, pump_loop,
  start_pump, source_error, write_ended, marker_ended, FileIdentity,
}

abbrev pub in_flight : Pump → ℕ
in_flight (writing request) = request
in_flight _ = 0

abbrev pub is_ending : Pump → Bool
is_ending ending = true
is_ending _ = false

abbrev pub is_writing : Pump → Bool
is_writing (writing request) = true
is_writing _ = false

Pump-cases : (p : Pump) → (is_writing p ≡ false) ⊎ ((request : ℕ) × (p ≡ writing request))
Pump-cases idle = inl refl
Pump-cases ending = inl refl
Pump-cases (writing request) = inr (request, refl)

-- A capture that has heard the bytes `h`, whatever its pump does.
pub record IsKept (h : List ℕ) (c : Capture) : Type 0 where
  pub drained : c.drained_bytes ≡ length h
  pub bounded : length c.storage ≤ output_capture_limit
  pub short : length c.storage ≤ length h
  pub stored : c.storage ≡ take (length c.storage) h
  pub written : c.raw ≡ take (length c.raw) c.storage
  pub fewer : length c.raw ≤ length c.storage
  pub whole : c.capture_loss ≡ false → c.storage ≡ take output_capture_limit h
  pub cut : c.capture_loss ≡ false → c.overflow_observed ≡ ltb output_capture_limit (length h)
  pub cut_full :
      c.overflow_observed ≡ true
      → (length c.storage ≡ output_capture_limit) × (output_capture_limit < length h)
  pub marked : c.overflow_observed ≡ true → c.marker ≢ no_marker
  pub unlost : c.result ≡ none → c.fd_open ≡ false → c.capture_loss ≡ true
  pub shut : c.intake_open ≡ true → c.result ≡ none

-- The write under way stays inside of the storage, and there is one while bytes are left.
pub record IsPumped (c : Capture) : Type 0 where
  pub fits : length c.raw + in_flight c.pump ≤ length c.storage
  pub quiet :
      is_writing c.pump ≡ false
      → c.capture_loss ≡ false
      → c.fd_open ≡ true
      → length c.raw ≡ length c.storage

pub opened-IsKept :
    (stream : CaptureStream) (identity : Option FileIdentity) → IsKept [] (opened stream identity)
opened-IsKept stream identity = record {
  drained = refl;
  bounded = omega arith;
  short = omega arith;
  stored = refl;
  written = refl;
  fewer = omega arith;
  whole = λ h. sym (take-nil output_capture_limit);
  cut = λ h. ground arith;
  cut_full = λ h. ground arith;
  marked = λ h. ground arith;
  unlost = ground arith;
  shut = λ h. refl;
}

pump_loop-IsKept : (h : List ℕ) (c : Capture) → IsKept h c → IsKept h (pump_loop c)
unfolding pump_loop
pump_loop-IsKept h c s = ground (arith, s)

pump_loop-IsPumped : (h : List ℕ) (c : Capture) → IsKept h c → IsPumped (pump_loop c)
unfolding pump_loop
pump_loop-IsPumped h c s = ground (arith, s.fewer)

pub start_pump-IsKept : (h : List ℕ) (c : Capture) → IsKept h c → IsKept h (start_pump c)
unfolding start_pump pump_loop
start_pump-IsKept h c s = ground (arith, s)

-- A write of `n` bytes that fits.
abbrev grow : ℕ → Capture → Capture
grow n c = record c { raw = c.raw ++ take n (drop (length c.raw) c.storage) }

length-grow :
    (n : ℕ) (c : Capture)
    → length c.raw + n ≤ length c.storage
    → length (grow n c).raw ≡ length c.raw + n
length-grow n c f = omega (
  arith,
  f,
  length-append c.raw (take n (drop (length c.raw) c.storage)),
  length-take n (drop (length c.raw) c.storage),
  length-drop (length c.raw) c.storage,
)

grow-IsKept :
    (h : List ℕ) (n : ℕ) (c : Capture)
    → length c.raw + n ≤ length c.storage
    → IsKept h c
    → IsKept h (grow n c)
grow-IsKept h n c f s = record {
  drained = s.drained;
  bounded = s.bounded;
  short = s.short;
  stored = s.stored;
  written =
      ap (λ xs. xs ++ take n (drop (length c.raw) c.storage)) s.written
      ∙ take-drop (length c.raw) n c.storage
      ∙ ap (λ k. take k c.storage) (sym (length-grow n c f));
  fewer = omega (arith, f, length-grow n c f);
  whole = s.whole;
  cut = s.cut;
  cut_full = s.cut_full;
  marked = s.marked;
  unlost = s.unlost;
  shut = s.shut;
}

pub source_error-IsKept : (h : List ℕ) (c : Capture) → IsKept h c → IsKept h (source_error c)
unfolding source_error
source_error-IsKept h c s = ground (arith, s)

-- What a pump does next to a capture that is kept.
abbrev pub IsNext : List ℕ → Capture → Type 0
IsNext h c = IsKept h c × IsPumped c

pub pump_loop-IsNext : (h : List ℕ) (c : Capture) → IsKept h c → IsNext h (pump_loop c)
pump_loop-IsNext h c s = (pump_loop-IsKept h c s, pump_loop-IsPumped h c s)

pub write_ended-IsNext :
    (h : List ℕ) (outcome : Option ℕ) (c : Capture)
    → IsKept h c
    → IsPumped c
    → IsNext h (write_ended outcome c)
unfolding write_ended source_error
write_ended-IsNext h outcome c s p = elim (Pump-cases c.pump) [
  | inl still ↦ ground (arith, s, p, still)
  | inr (request, busy) ↦
      let fits : length c.raw + request ≤ length c.storage = ground (arith, p.fits, busy) in
      elim outcome as (λ o. IsNext h (write_ended o c)) [
        | none ↦ rw (busy) (pump_loop-IsNext h _ (source_error-IsKept h c s))
        | some n ↦ elim (Bool-cases (n == 0 || ltb request n)) [
          | inl bad ↦ rw (busy, bad) (pump_loop-IsNext h _ (source_error-IsKept h c s))
          | inr good ↦
              rw (busy, good)
                (pump_loop-IsNext h _ (grow-IsKept h n c (ground (arith, good, fits)) s))
        ]
      ]
]

pub marker_ended-IsKept :
    (h : List ℕ) (outcome : Option Bool) (c : Capture)
    → IsKept h c
    → IsKept h (marker_ended outcome c)
unfolding marker_ended
marker_ended-IsKept h outcome c s = ground (arith, s)

-- What is stored after a chunk, if nothing was lost before.
pub stored-accept :
    (n : ℕ) (h storage chunk : List ℕ)
    → storage ≡ take n h
    → storage ++ take (min (n - length storage) (length chunk)) chunk ≡ take n (h ++ chunk)
stored-accept n h storage chunk e =
    let room : n - length storage ≡ n - length h =
      omega (arith, length-take n h, ap (λ xs. length xs) e) in
    ap (λ xs. storage ++ xs) (take-min (n - length storage) chunk)
    ∙ ap (λ k. storage ++ take k chunk) room
    ∙ ap (λ xs. xs ++ take (n - length h) chunk) e
    ∙ sym (take-append n h chunk)
