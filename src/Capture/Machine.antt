-- ===== src/Capture/Machine.antt =====
-- src/output-capture.ts: `StreamCapture` as a state and its handlers. What the file system answers
-- is an argument. The reactions to a write run before the next event, as the queue of microtasks
-- is empty before the event loop goes on.
use pi_watch.Base.{
  ℕ, suc, ◌+◌, ◌-◌, min, max, Bool, true, false, not, ◌&&◌, ◌||◌, Option, none, some, is_some, List,
  [], ◌++◌, take, drop, length, ltb, ◌==◌, if◌then◌else◌,
}
use pi_watch.Output.Page.{CaptureStream}

-- `OUTPUT_CAPTURE_LIMIT`
unfoldable pub output_capture_limit : ℕ
output_capture_limit = 5242880

-- `FileIdentity`
pub record FileIdentity : Type 0 where
  pub dev : ℕ
  pub ino : ℕ

pub data ClosureReason : Type 0 where
  eof cutover capture_error : ClosureReason

-- `ClosureReceipt`, whose version is 1.
pub record ClosureReceipt : Type 0 where
  pub stream : CaptureStream
  pub retained_bytes : ℕ
  pub truncated : Bool
  pub incomplete : Bool
  pub open_at_cutover : Bool
  pub reason : ClosureReason
  pub raw_dev : ℕ
  pub raw_ino : ℕ

-- `CaptureTelemetry`
pub record Telemetry : Type 0 where
  pub max_pending_writes : ℕ
  pub max_buffers : ℕ
  pub max_reserved_bytes : ℕ
  pub accept_callbacks : ℕ
  pub pump_starts : ℕ
  pub write_attempts : ℕ

pub record CaptureResult : Type 0 where
  pub available : Bool
  pub truncated : Bool
  pub incomplete : Bool
  pub open_at_cutover : Bool
  pub retained_bytes : ℕ
  pub drained_bytes : ℕ
  pub receipt : Option ClosureReceipt
  pub telemetry : Telemetry

-- `SealInput`
pub data Source : Type 0 where
  at_eof at_cutover : Source

-- The promise of `#pump`: none, a write of so many bytes under way, or a loop that has ended.
pub data Pump : Type 0 where
  idle ending : Pump
  writing : ℕ → Pump

-- The promise of `#createMarker`.
pub data Marker : Type 0 where
  no_marker pending : Marker
  settled : Bool → Marker

pub record Capture : Type 0 where
  pub stream : CaptureStream
  pub storage : List ℕ  -- the admitted bytes of `#storage`
  pub raw : List ℕ  -- what the writes have put into the raw file
  pub drained_bytes : ℕ
  pub overflow_observed : Bool
  pub capture_loss : Bool
  pub durability_loss : Bool
  pub intake_open : Bool
  pub fd_open : Bool
  pub raw_identity : Option FileIdentity
  pub pump : Pump
  pub marker : Marker
  pub sealing : Option Source
  pub result : Option CaptureResult
  pub invalidated : Bool
  pub telemetry : Telemetry

-- `#admittedBytes` and `#writtenBytes`
abbrev pub admitted_bytes : Capture → ℕ
admitted_bytes c = length c.storage

abbrev pub written_bytes : Capture → ℕ
written_bytes c = length c.raw

abbrev no_telemetry : Telemetry
no_telemetry = record {
  max_pending_writes = 0;
  max_buffers = 0;
  max_reserved_bytes = 0;
  accept_callbacks = 0;
  pump_starts = 0;
  write_attempts = 0;
}

-- The constructor; the raw file is not there if its creation threw.
abbrev pub opened : CaptureStream → Option FileIdentity → Capture
opened stream identity = record {
  stream = stream;
  storage = [];
  raw = [];
  drained_bytes = 0;
  overflow_observed = false;
  capture_loss = not (is_some identity);
  durability_loss = not (is_some identity);
  intake_open = true;
  fd_open = is_some identity;
  raw_identity = identity;
  pump = idle;
  marker = no_marker;
  sealing = none;
  result = none;
  invalidated = false;
  telemetry = no_telemetry;
}

abbrev pub is_idle : Pump → Bool
is_idle idle = true
is_idle _ = false

abbrev pub is_pending : Marker → Bool
is_pending pending = true
is_pending _ = false

-- `#pump` from the head of its loop to the next write.
unfoldable pub pump_loop : Capture → Capture
pump_loop c =
    if c.fd_open && not c.capture_loss && ltb (written_bytes c) (admitted_bytes c)
    then record c {
      pump = writing (admitted_bytes c - written_bytes c);
      telemetry = record c.telemetry { write_attempts = suc c.telemetry.write_attempts };
    }
    else record c { pump = ending }

-- `#startPump`
unfoldable pub start_pump : Capture → Capture
unfolding pump_loop
start_pump c =
    if not (is_idle c.pump) || not c.fd_open
    then c
    else pump_loop (record c {
      telemetry = record c.telemetry {
        max_pending_writes = max c.telemetry.max_pending_writes 1;
        pump_starts = suc c.telemetry.pump_starts;
      };
    })

-- The callback of `finally` on the promise of `#pump`.
unfoldable pub pump_settled : Capture → Capture
unfolding start_pump
pump_settled c = elim c.pump [
  | idle ↦ c
  | writing request ↦ c
  | ending ↦
      let ended = record c { pump = idle } in
      if c.intake_open && not c.capture_loss && ltb (written_bytes c) (admitted_bytes c)
      then start_pump ended
      else ended
]

-- `#observeOverflow`
unfoldable pub observe_overflow : Capture → Capture
observe_overflow c =
    if c.overflow_observed then c else record c { overflow_observed = true; marker = pending }

-- What `accept` copies of a chunk.
unfoldable pub admit : ℕ → List ℕ → Capture → Capture
unfolding start_pump
admit accepted chunk c =
    if ltb 0 accepted && c.fd_open
    then start_pump (record c {
      storage = c.storage ++ take accepted chunk;
      telemetry = record c.telemetry {
        max_reserved_bytes =
            max c.telemetry.max_reserved_bytes (admitted_bytes c + accepted - written_bytes c);
        max_buffers = max c.telemetry.max_buffers (if is_idle c.pump then 1 else 2);
      };
    })
    else c

unfoldable pub accept : List ℕ → Capture → Capture
unfolding admit observe_overflow
accept chunk c =
    if not c.intake_open || length chunk == 0
    then c
    else (let heard = record c {
      drained_bytes = c.drained_bytes + length chunk;
      telemetry = record c.telemetry { accept_callbacks = suc c.telemetry.accept_callbacks };
    } in
        let accepted = min (output_capture_limit - admitted_bytes c) (length chunk) in
        if c.capture_loss
        then heard
        else (if ltb accepted (length chunk)
            then observe_overflow (admit accepted chunk heard)
            else admit accepted chunk heard))

-- `sourceError`
unfoldable pub source_error : Capture → Capture
source_error c = record c { capture_loss = true }

-- The end of a write in `#pump`: it threw, or wrote so many bytes.
unfoldable pub write_ended : Option ℕ → Capture → Capture
unfolding pump_loop
write_ended outcome c = elim c.pump [
  | idle ↦ c
  | ending ↦ c
  | writing request ↦ elim outcome [
    | none ↦ pump_loop (record c { capture_loss = true })
    | some written ↦
        if written == 0 || ltb request written
        then pump_loop (record c { capture_loss = true })
        else pump_loop (record c { raw = c.raw ++ take written (drop (written_bytes c) c.storage) })
  ]
]

-- The end of `#createMarker`: it threw, or returned whether the marker is the file it made.
unfoldable pub marker_ended : Option Bool → Capture → Capture
marker_ended outcome c = elim c.marker [
  | no_marker ↦ c
  | settled durable ↦ c
  | pending ↦ elim outcome [
    | none ↦ record c { marker = settled false; capture_loss = true; durability_loss = true }
    | some durable ↦ record c { marker = settled durable }
  ]
]

-- `seal`, up to its first wait; the first call decides the source.
unfoldable pub seal : Source → Capture → Capture
seal source c = record c {
  intake_open = false;
  sealing = elim c.sealing [ none ↦ some source | some earlier ↦ some earlier ];
}

-- `invalidateEmptyStaging`, up to its first wait.
unfoldable pub invalidate_empty_staging : Capture → Capture
invalidate_empty_staging c = record c { intake_open = false; invalidated = true }
