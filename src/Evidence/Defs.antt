-- ===== src/Evidence/Defs.antt =====
-- src/store-evidence.ts: the types of evidence and `initialEvidence`.
use pi_watch.Base.{ℕ, ℤ, Text, Bool, true, false, Option, none, ◌==◌}

pub data LaunchPhase : Type 0 where
  unknown suppressed_cancelled suppressed_deadline spawn_failed launched : LaunchPhase

pub data CleanupState : Type 0 where
  not_required not_requested pending unconfirmed : CleanupState

pub data CleanupTermObservation : Type 0 where
  returned error : CleanupTermObservation

-- Equality of the enumerations, `===`.
abbrev pub launch_index : LaunchPhase → ℕ
launch_index unknown = 0
launch_index suppressed_cancelled = 1
launch_index suppressed_deadline = 2
launch_index spawn_failed = 3
launch_index launched = 4

abbrev pub launch_eq : LaunchPhase → LaunchPhase → Bool
launch_eq a b = launch_index a == launch_index b

-- `CLEANUP_ORDER`; the four states have four places, so `===` is equality of places.
abbrev pub cleanup_order : CleanupState → ℕ
cleanup_order not_required = 0
cleanup_order not_requested = 1
cleanup_order pending = 2
cleanup_order unconfirmed = 3

abbrev pub cleanup_eq : CleanupState → CleanupState → Bool
cleanup_eq a b = cleanup_order a == cleanup_order b

abbrev pub term_eq : CleanupTermObservation → CleanupTermObservation → Bool
term_eq returned returned = true
term_eq error error = true
term_eq _ _ = false

pub record StreamCaptureFacts : Type 0 where
  pub available : Option Bool
  pub truncated : Bool
  pub incomplete : Bool
  pub open_at_cutover : Bool

pub record ExecutionEvidence : Type 0 where
  pub launch : LaunchPhase
  pub shell_code : Option ℤ
  pub shell_signal : Option Text
  pub cleanup_state : CleanupState
  pub cleanup_term_observation : Option CleanupTermObservation
  pub cleanup_kill_intent_observed : Bool
  pub cancellation_intent_observed : Bool
  pub deadline_trigger_observed : Bool
  pub stdout : StreamCaptureFacts
  pub stderr : StreamCaptureFacts
  pub uncertain : Bool
  pub finalized : Bool

-- `Partial<StreamCaptureFacts>`
pub record StreamInput : Type 0 where
  pub available : Option (Option Bool)
  pub truncated : Option Bool
  pub incomplete : Option Bool
  pub open_at_cutover : Option Bool

-- `EvidenceInput` as `validateEvidenceInput` returns it: in the source's type a shell code is any
-- number, and the validation refuses all but integers before an observation is merged.
pub record EvidenceInput : Type 0 where
  pub launch : Option LaunchPhase
  pub shell_code : Option (Option ℤ)
  pub shell_signal : Option (Option Text)
  pub cleanup_state : Option CleanupState
  pub cleanup_term_observation : Option (Option CleanupTermObservation)
  pub cleanup_kill_intent_observed : Option Bool
  pub cancellation_intent_observed : Option Bool
  pub deadline_trigger_observed : Option Bool
  pub stdout : Option StreamInput
  pub stderr : Option StreamInput
  pub finalized : Option Bool

abbrev pub default_stream_facts : StreamCaptureFacts
default_stream_facts = record {
  available = none;
  truncated = false;
  incomplete = false;
  open_at_cutover = false;
}

abbrev pub initial_evidence : ExecutionEvidence
initial_evidence = record {
  launch = unknown;
  shell_code = none;
  shell_signal = none;
  cleanup_state = not_requested;
  cleanup_term_observation = none;
  cleanup_kill_intent_observed = false;
  cancellation_intent_observed = false;
  deadline_trigger_observed = false;
  stdout = default_stream_facts;
  stderr = default_stream_facts;
  uncertain = true;
  finalized = false;
}

-- The observation `{}`.
abbrev pub no_observation : EvidenceInput
no_observation = record {
  launch = none;
  shell_code = none;
  shell_signal = none;
  cleanup_state = none;
  cleanup_term_observation = none;
  cleanup_kill_intent_observed = none;
  cancellation_intent_observed = none;
  deadline_trigger_observed = none;
  stdout = none;
  stderr = none;
  finalized = none;
}

-- `NON_EXECUTION_LAUNCH.includes(launch)`
abbrev pub is_non_execution : LaunchPhase → Bool
is_non_execution suppressed_cancelled = true
is_non_execution suppressed_deadline = true
is_non_execution spawn_failed = true
is_non_execution unknown = false
is_non_execution launched = false
