-- ===== src/Tests/Evidence.antt =====
-- An observed launch, merged into the first evidence, and the theorems about evidence at it.
use pi_watch.Base.{arith, pos, true, false, none, some, ◌≡◌, refl}
use pi_watch.JobTypes.Errors.{ok, err}
use pi_watch.Evidence.Defs.{ExecutionEvidence, EvidenceInput, initial_evidence, no_observation}
use pi_watch.Evidence.Defs
use pi_watch.Evidence.Merge.{
  merge_launch, merge_known, merge_cleanup, merge_flag, merge_stream, merge_outcome,
  merge_cleanup_facts, merge_evidence, validation_error,
}
use pi_watch.Evidence.Extends.{EvidenceExtends, merge_evidence-EvidenceExtends}
use pi_watch.Evidence.Coherent.{IsCoherent, initial_evidence-IsCoherent, merge_evidence-IsCoherent}
use pi_watch.Evidence.Replay.{merge_evidence_idempotent, merge_evidence-no_observation}

-- The command ran and exited with code 3; its cleanup is pending.
abbrev observation : EvidenceInput
observation = record no_observation {
  launch = some Defs.launched;
  shell_code = some (some (pos 3));
  cleanup_state = some Defs.pending;
  stdout = some (record {
    available = some (some true);
    truncated = some true;
    incomplete = none;
    open_at_cutover = some false;
  });
}

abbrev observed : ExecutionEvidence
observed = record initial_evidence {
  launch = Defs.launched;
  shell_code = some (pos 3);
  cleanup_state = Defs.pending;
  stdout = record {
    available = some true;
    truncated = true;
    incomplete = false;
    open_at_cutover = false;
  };
  uncertain = false;
}

merge_observed : merge_evidence initial_evidence observation false false ≡ ok observed
unfolding merge_evidence merge_outcome merge_cleanup_facts merge_cleanup merge_launch merge_known
    merge_flag merge_stream
merge_observed = refl

-- Another launch phase is refused afterwards.
merge_contradicted :
    merge_evidence observed (record no_observation { launch = some Defs.spawn_failed }) false false
    ≡ err (validation_error "Launch phase contradicts the established fact.")
unfolding merge_evidence merge_outcome merge_launch
merge_contradicted = refl

merge_evidence-EvidenceExtends_example : EvidenceExtends initial_evidence observed
merge_evidence-EvidenceExtends_example =
    merge_evidence-EvidenceExtends initial_evidence observation false false merge_observed

merge_evidence-IsCoherent_example : IsCoherent observed
merge_evidence-IsCoherent_example =
    merge_evidence-IsCoherent initial_evidence observation false false merge_observed
      initial_evidence-IsCoherent

merge_evidence_idempotent_example : merge_evidence observed observation false false ≡ ok observed
merge_evidence_idempotent_example =
    merge_evidence_idempotent initial_evidence observation false false merge_observed

observed-IsCoherent : IsCoherent observed
observed-IsCoherent = ground arith

merge_evidence-no_observation_example :
    merge_evidence observed no_observation true false
    ≡ ok (record observed { uncertain = true; finalized = false })
merge_evidence-no_observation_example =
    merge_evidence-no_observation observed true false observed-IsCoherent
