-- ===== src/Evidence/Extends.antt =====
-- src/store-evidence.ts: the facts of a snapshot before and after `mergeEvidence`.
use pi_watch.Base.{
  ℤ, int_eq, int_eq_iff, text_eq, text_eq→eq, Bool, true, false, ◌&&◌, ◌||◌, Option, none, some,
  is_some, bool_eq, ◌≡◌, ◌≢◌, ◌≤◌, arith,
}
use Prim.Native.String.{String}
use pi_watch.JobTypes.Errors.{ok}
use pi_watch.Evidence.Defs.{
  LaunchPhase, CleanupState, cleanup_eq, cleanup_order, CleanupTermObservation, term_eq,
  StreamCaptureFacts, ExecutionEvidence, StreamInput, EvidenceInput, is_non_execution,
}
use pi_watch.Evidence.Defs
use pi_watch.Evidence.Merge.{
  merge_launch, merge_known, merge_cleanup, raise_flag, merge_flag, merge_stream, Outcome,
  merge_outcome, Cleanup, merge_cleanup_facts, merge_evidence,
}

-- A fact that is known stays what it is.
abbrev pub Keeps {ℓ} : {A : Type ℓ} → Option A → Option A → Type ℓ
Keeps none b = Unit
Keeps (some a) b = b ≡ some a

-- A flag that is raised stays raised.
abbrev pub Stays : Bool → Bool → Type 0
Stays a b = a ≡ true → b ≡ true

merge_launch-keeps :
    (prior : LaunchPhase) (observed : Option LaunchPhase) {next : LaunchPhase}
    → merge_launch prior observed ≡ ok next
    → prior ≢ Defs.unknown
    → next ≡ prior
unfolding merge_launch
merge_launch-keeps prior observed h known = ground arith

merge_known-Keeps {ℓ} :
    {A : Type ℓ} (eq : A → A → Bool) (sound : (a b : A) → eq a b ≡ true → a ≡ b) (message : String)
    (prior : Option A) (observed : Option (Option A)) {next : Option A}
    → merge_known eq message prior observed ≡ ok next
    → Keeps prior next
unfolding merge_known
merge_known-Keeps eq sound message none observed h = tt
merge_known-Keeps eq sound message (some a) none h = ground arith
merge_known-Keeps eq sound message (some a) (some none) h = ground arith
merge_known-Keeps eq sound message (some a) (some (some b)) h = ground (arith, sound a b)

pub merge_outcome-parts :
    (prior : ExecutionEvidence) (input : EvidenceInput) {next : Outcome}
    → merge_outcome prior input ≡ ok next
    → (merge_launch prior.launch input.launch ≡ ok next.launch)
      × (merge_known int_eq "Shell code contradicts the established outcome." prior.shell_code
            input.shell_code
          ≡ ok next.code)
      × (merge_known text_eq "Shell signal contradicts the established outcome." prior.shell_signal
            input.shell_signal
          ≡ ok next.signal)
      × ((is_some next.code && is_some next.signal) ≡ false)
      × ((is_non_execution next.launch && (is_some next.code || is_some next.signal)) ≡ false)
unfolding merge_outcome
merge_outcome-parts prior input h = ground arith

pub merge_cleanup_facts-parts :
    (phase : LaunchPhase) (prior : ExecutionEvidence) (input : EvidenceInput) {next : Cleanup}
    → merge_cleanup_facts phase prior input ≡ ok next
    → (merge_cleanup phase prior.cleanup_state input.cleanup_state ≡ ok next.state)
      × (merge_known term_eq "Cleanup TERM receipt contradicts the established fact."
            prior.cleanup_term_observation input.cleanup_term_observation
          ≡ ok next.term)
      × (next.kill
          ≡ raise_flag prior.cleanup_kill_intent_observed input.cleanup_kill_intent_observed)
      × ((cleanup_eq next.state Defs.not_required && (is_some next.term || next.kill)) ≡ false)
unfolding merge_cleanup_facts
merge_cleanup_facts-parts phase prior input h = ground arith

-- A merge that succeeds, taken apart into its stages.
pub record Merged (prior : ExecutionEvidence) (input : EvidenceInput) (uncertain finalized : Bool)
    (next : ExecutionEvidence) : Type 0 where
  pub outcome :
      merge_outcome prior input
      ≡ ok (record { launch = next.launch; code = next.shell_code; signal = next.shell_signal })
  pub cleanup :
      merge_cleanup_facts next.launch prior input
      ≡ ok (record {
        state = next.cleanup_state;
        term = next.cleanup_term_observation;
        kill = next.cleanup_kill_intent_observed;
      })
  pub stdout : merge_stream prior.stdout input.stdout ≡ ok next.stdout
  pub stderr : merge_stream prior.stderr input.stderr ≡ ok next.stderr
  pub cancellation :
      next.cancellation_intent_observed
      ≡ raise_flag prior.cancellation_intent_observed input.cancellation_intent_observed
  pub deadline :
      next.deadline_trigger_observed
      ≡ raise_flag prior.deadline_trigger_observed input.deadline_trigger_observed
  pub uncertain_set : next.uncertain ≡ uncertain
  pub finalized_set : next.finalized ≡ finalized

pub merge_evidence-Merged :
    (prior : ExecutionEvidence) (input : EvidenceInput) (uncertain finalized : Bool)
    {next : ExecutionEvidence}
    → merge_evidence prior input uncertain finalized ≡ ok next
    → Merged prior input uncertain finalized next
unfolding merge_evidence
merge_evidence-Merged prior input uncertain finalized h = ground arith

pub record StreamExtends (a b : StreamCaptureFacts) : Type 0 where
  pub available : Keeps a.available b.available
  pub truncated : Stays a.truncated b.truncated
  pub incomplete : Stays a.incomplete b.incomplete
  pub open_at_cutover : Stays a.open_at_cutover b.open_at_cutover

-- `b` knows all that `a` knows.
pub record EvidenceExtends (a b : ExecutionEvidence) : Type 0 where
  pub launch : a.launch ≢ Defs.unknown → b.launch ≡ a.launch
  pub code : Keeps a.shell_code b.shell_code
  pub signal : Keeps a.shell_signal b.shell_signal
  pub term : Keeps a.cleanup_term_observation b.cleanup_term_observation
  pub kill : Stays a.cleanup_kill_intent_observed b.cleanup_kill_intent_observed
  pub cancellation : Stays a.cancellation_intent_observed b.cancellation_intent_observed
  pub deadline : Stays a.deadline_trigger_observed b.deadline_trigger_observed
  pub not_required_final : a.cleanup_state ≡ Defs.not_required → b.cleanup_state ≡ Defs.not_required
  pub cleanup_forward :
      b.cleanup_state ≢ Defs.not_required
      → cleanup_order a.cleanup_state ≤ cleanup_order b.cleanup_state
  pub stdout : StreamExtends a.stdout b.stdout
  pub stderr : StreamExtends a.stderr b.stderr

bool_eq→eq : (a b : Bool) → bool_eq a b ≡ true → a ≡ b
bool_eq→eq a b h = ground arith

term_eq→eq : (a b : CleanupTermObservation) → term_eq a b ≡ true → a ≡ b
term_eq→eq a b h = ground arith

int_eq→eq : (a b : ℤ) → int_eq a b ≡ true → a ≡ b
int_eq→eq a b h = (int_eq_iff a b).0 h

merge_flag-Stays :
    (message : String) (prior : Bool) (observed : Option Bool) {next : Bool}
    → merge_flag message prior observed ≡ ok next
    → Stays prior next
unfolding merge_flag
merge_flag-Stays message prior observed h = ground arith

merge_cleanup-forward :
    (phase : LaunchPhase) (prior : CleanupState) (observed : Option CleanupState)
    {next : CleanupState}
    → merge_cleanup phase prior observed ≡ ok next
    → (prior ≡ Defs.not_required → next ≡ Defs.not_required)
      × (next ≢ Defs.not_required → cleanup_order prior ≤ cleanup_order next)
unfolding merge_cleanup
merge_cleanup-forward phase prior observed h = ground arith

merge_stream-StreamExtends :
    (target : StreamCaptureFacts) (input : Option StreamInput) {next : StreamCaptureFacts}
    → merge_stream target input ≡ ok next
    → StreamExtends target next
unfolding merge_stream
merge_stream-StreamExtends target none h = ground arith
merge_stream-StreamExtends target (some input) h =
    grind (arith, merge_known-Keeps bool_eq bool_eq→eq, merge_flag-Stays)

-- A merge that succeeds keeps every fact that the prior snapshot had established: a known launch
-- phase, shell code, shell signal, TERM receipt and stream availability keep their values, raised
-- flags stay raised, `not_required` cleanup stays and other cleanup states never regress.
pub merge_evidence-EvidenceExtends :
    (prior : ExecutionEvidence) (input : EvidenceInput) (uncertain finalized : Bool)
    {next : ExecutionEvidence}
    → merge_evidence prior input uncertain finalized ≡ ok next
    → EvidenceExtends prior next
merge_evidence-EvidenceExtends prior input uncertain finalized h =
    let m = merge_evidence-Merged prior input uncertain finalized h in
    let o = merge_outcome-parts prior input m.outcome in
    let c = merge_cleanup_facts-parts _ prior input m.cleanup in
    record {
      launch = merge_launch-keeps prior.launch input.launch o.0;
      code = merge_known-Keeps int_eq int_eq→eq _ prior.shell_code input.shell_code o.1;
      signal = merge_known-Keeps text_eq text_eq→eq _ prior.shell_signal input.shell_signal o.2;
      term =
          merge_known-Keeps term_eq term_eq→eq _ prior.cleanup_term_observation
            input.cleanup_term_observation c.1;
      kill = ground arith;
      cancellation = ground arith;
      deadline = ground arith;
      not_required_final = (merge_cleanup-forward _ prior.cleanup_state _ c.0).0;
      cleanup_forward = (merge_cleanup-forward _ prior.cleanup_state _ c.0).1;
      stdout = merge_stream-StreamExtends prior.stdout input.stdout m.stdout;
      stderr = merge_stream-StreamExtends prior.stderr input.stderr m.stderr;
    }
