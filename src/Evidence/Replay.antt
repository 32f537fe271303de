-- ===== src/Evidence/Replay.antt =====
-- src/store-evidence.ts: repeated and empty observations in `mergeEvidence`.
use pi_watch.Base.{
  Bool, true, Option, none, some, ◌≡◌, refl, arith, ℤ, int_eq, int_eq_iff, text_eq, text_eq_refl,
  text_eq→eq, bool_eq,
}
use Prim.Native.String.{String}
use pi_watch.JobTypes.Errors.{ok}
use pi_watch.Evidence.Defs.{
  LaunchPhase, CleanupState, CleanupTermObservation, term_eq, StreamCaptureFacts, ExecutionEvidence,
  StreamInput, EvidenceInput, no_observation,
}
use pi_watch.Evidence.Merge.{
  merge_launch, merge_known, merge_cleanup, merge_flag, merge_stream, merge_outcome, Cleanup,
  merge_cleanup_facts, merge_evidence,
}
use pi_watch.Evidence.Coherent.{IsCoherent}
use pi_watch.Evidence.Extends.{
  Merged, merge_evidence-Merged, merge_outcome-parts, merge_cleanup_facts-parts,
}

merge_known-again {ℓ} :
    {A : Type ℓ} (eq : A → A → Bool) (same : (a : A) → eq a a ≡ true)
    (sound : (a b : A) → eq a b ≡ true → a ≡ b) (message : String) (prior : Option A)
    (observed : Option (Option A)) {next : Option A}
    → merge_known eq message prior observed ≡ ok next
    → merge_known eq message next observed ≡ ok next
unfolding merge_known
merge_known-again eq same sound message none none h = ground arith
merge_known-again eq same sound message none (some none) h = ground arith
merge_known-again eq same sound message none (some (some b)) h = ground (arith, same b)
merge_known-again eq same sound message (some a) none h = ground arith
merge_known-again eq same sound message (some a) (some none) h = ground arith
merge_known-again eq same sound message (some a) (some (some b)) h = ground (arith, same b)

merge_launch-again :
    (prior : LaunchPhase) (observed : Option LaunchPhase) {next : LaunchPhase}
    → merge_launch prior observed ≡ ok next
    → merge_launch next observed ≡ ok next
unfolding merge_launch
merge_launch-again prior observed h = ground arith

merge_cleanup-again :
    (phase : LaunchPhase) (prior : CleanupState) (observed : Option CleanupState)
    {next : CleanupState}
    → merge_cleanup phase prior observed ≡ ok next
    → merge_cleanup phase next observed ≡ ok next
unfolding merge_cleanup
merge_cleanup-again phase prior none h = ground arith
merge_cleanup-again phase prior (some state) h = ground arith

merge_flag-again :
    (message : String) (prior : Bool) (observed : Option Bool) {next : Bool}
    → merge_flag message prior observed ≡ ok next
    → merge_flag message next observed ≡ ok next
unfolding merge_flag
merge_flag-again message prior observed h = ground arith

int_same : (a : ℤ) → int_eq a a ≡ true
int_same a = (int_eq_iff a a).1 refl

int_sound : (a b : ℤ) → int_eq a b ≡ true → a ≡ b
int_sound a b = (int_eq_iff a b).0

term_same : (a : CleanupTermObservation) → term_eq a a ≡ true
term_same a = ground arith

term_sound : (a b : CleanupTermObservation) → term_eq a b ≡ true → a ≡ b
term_sound a b h = ground arith

bool_same : (a : Bool) → bool_eq a a ≡ true
bool_same a = ground arith

bool_sound : (a b : Bool) → bool_eq a b ≡ true → a ≡ b
bool_sound a b h = ground arith

stream_again :
    (target : StreamCaptureFacts) (input : Option StreamInput) {next : StreamCaptureFacts}
    → merge_stream target input ≡ ok next
    → merge_stream next input ≡ ok next
unfolding merge_stream
stream_again target none h = ground arith
stream_again target (some input) {next} h =
    grind (arith, merge_known-again bool_eq bool_same bool_sound, merge_flag-again)

merge_evidence_of_Merged :
    (prior : ExecutionEvidence) (input : EvidenceInput) (uncertain finalized : Bool)
    {next : ExecutionEvidence}
    → Merged prior input uncertain finalized next
    → merge_evidence prior input uncertain finalized ≡ ok next
unfolding merge_evidence
merge_evidence_of_Merged prior input uncertain finalized m = ground arith

outcome_again :
    (prior : ExecutionEvidence) (input : EvidenceInput) (next : ExecutionEvidence)
    → merge_outcome prior input
      ≡ ok (record { launch = next.launch; code = next.shell_code; signal = next.shell_signal })
    → merge_outcome next input
      ≡ ok (record { launch = next.launch; code = next.shell_code; signal = next.shell_signal })
unfolding merge_outcome
outcome_again prior input next h =
    let o = merge_outcome-parts prior input h in
    ground (
      arith,
      o,
      merge_launch-again prior.launch input.launch o.0,
      merge_known-again int_eq int_same int_sound _ prior.shell_code input.shell_code o.1,
      merge_known-again text_eq text_eq_refl text_eq→eq _ prior.shell_signal input.shell_signal o.2,
    )

cleanup_again :
    (prior : ExecutionEvidence) (input : EvidenceInput) (next : ExecutionEvidence) {c : Cleanup}
    → merge_cleanup_facts next.launch prior input ≡ ok c
    → c.state ≡ next.cleanup_state
    → c.term ≡ next.cleanup_term_observation
    → c.kill ≡ next.cleanup_kill_intent_observed
    → merge_cleanup_facts next.launch next input ≡ ok c
unfolding merge_cleanup_facts
cleanup_again prior input next h s t k =
    let p = merge_cleanup_facts-parts next.launch prior input h in
    ground (
      arith,
      p,
      merge_cleanup-again next.launch prior.cleanup_state input.cleanup_state p.0,
      merge_known-again term_eq term_same term_sound _ prior.cleanup_term_observation
          input.cleanup_term_observation p.1,
    )

-- An observation that was merged can be merged again with the same flags, and the second merge
-- changes nothing.
pub merge_evidence_idempotent :
    (prior : ExecutionEvidence) (input : EvidenceInput) (uncertain finalized : Bool)
    {next : ExecutionEvidence}
    → merge_evidence prior input uncertain finalized ≡ ok next
    → merge_evidence next input uncertain finalized ≡ ok next
merge_evidence_idempotent prior input uncertain finalized {next} h =
    let m = merge_evidence-Merged prior input uncertain finalized h in
    merge_evidence_of_Merged next input uncertain finalized (record {
      outcome = outcome_again prior input next m.outcome;
      cleanup = cleanup_again prior input next m.cleanup refl refl refl;
      stdout = stream_again prior.stdout input.stdout m.stdout;
      stderr = stream_again prior.stderr input.stderr m.stderr;
      cancellation = ground arith;
      deadline = ground arith;
      uncertain_set = m.uncertain_set;
      finalized_set = m.finalized_set;
    })

-- The empty observation is accepted on every coherent snapshot and changes only the two flags.
pub merge_evidence-no_observation :
    (prior : ExecutionEvidence) (uncertain finalized : Bool)
    → IsCoherent prior
    → merge_evidence prior no_observation uncertain finalized
      ≡ ok (record prior { uncertain = uncertain; finalized = finalized })
unfolding merge_evidence merge_outcome merge_cleanup_facts merge_cleanup merge_launch merge_known
    merge_stream
merge_evidence-no_observation prior uncertain finalized v = ground (arith, v)
