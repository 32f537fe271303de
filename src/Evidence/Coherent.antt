-- ===== src/Evidence/Coherent.antt =====
-- src/store-evidence.ts: the rules between the fields of one snapshot.
use pi_watch.Base.{Bool, true, false, Option, none, ◌≡◌, ◌≢◌, arith}
use pi_watch.JobTypes.Errors.{ok}
use pi_watch.Evidence.Defs.{
  LaunchPhase, CleanupState, cleanup_eq, CleanupTermObservation, term_eq, StreamCaptureFacts,
  ExecutionEvidence, StreamInput, EvidenceInput, is_non_execution, initial_evidence,
}
use pi_watch.Evidence.Defs
use pi_watch.Evidence.Merge.{merge_launch, merge_cleanup, merge_evidence}
use pi_watch.Evidence.Extends.{
  merge_evidence-Merged, merge_outcome-parts, merge_cleanup_facts-parts,
}

-- The rules that relate the fields of one snapshot.
pub record IsCoherent (e : ExecutionEvidence) : Type 0 where
  pub one_outcome : e.shell_code ≢ none → e.shell_signal ≡ none
  pub not_run : is_non_execution e.launch ≡ true → (e.shell_code ≡ none) × (e.shell_signal ≡ none)
  pub not_required_not_run : e.cleanup_state ≡ Defs.not_required → is_non_execution e.launch ≡ true
  pub not_required_no_attempt :
      e.cleanup_state ≡ Defs.not_required
      → (e.cleanup_term_observation ≡ none) × (e.cleanup_kill_intent_observed ≡ false)

pub initial_evidence-IsCoherent : IsCoherent initial_evidence
initial_evidence-IsCoherent = ground arith

merge_cleanup-not_run :
    (phase prior_launch : LaunchPhase) (prior : CleanupState) (input : Option LaunchPhase)
    (observed : Option CleanupState)
    → merge_launch prior_launch input ≡ ok phase
    → merge_cleanup phase prior observed ≡ ok Defs.not_required
    → (prior ≡ Defs.not_required → is_non_execution prior_launch ≡ true)
    → is_non_execution phase ≡ true
unfolding merge_cleanup merge_launch
merge_cleanup-not_run phase prior_launch prior input observed l h c = ground arith

-- A merge onto a coherent snapshot gives a coherent snapshot: a shell code and a signal are never
-- both known, a command that did not run has no outcome, and cleanup is `not_required` only for
-- such a command and with no cleanup attempt.
pub merge_evidence-IsCoherent :
    (prior : ExecutionEvidence) (input : EvidenceInput) (uncertain finalized : Bool)
    {next : ExecutionEvidence}
    → merge_evidence prior input uncertain finalized ≡ ok next
    → IsCoherent prior
    → IsCoherent next
merge_evidence-IsCoherent prior input uncertain finalized {next} h v =
    let m = merge_evidence-Merged prior input uncertain finalized h in
    let o = merge_outcome-parts prior input m.outcome in
    let c = merge_cleanup_facts-parts _ prior input m.cleanup in
    record {
      one_outcome = ground (arith, o.3);
      not_run = ground (arith, o.4);
      not_required_not_run = λ e.
          merge_cleanup-not_run next.launch prior.launch prior.cleanup_state input.launch
            input.cleanup_state o.0 (ground (arith, c.0, e)) v.not_required_not_run;
      not_required_no_attempt = ground (arith, c.3);
    }
