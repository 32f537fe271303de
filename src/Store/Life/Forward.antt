-- ===== src/Store/Life/Forward.antt =====
-- src/job-store.ts: what is established of a job, before and after a step.
use pi_watch.Base.{ℕ, ◌≤◌, Text, true, false, not, Option, none, some, ◌≡◌, refl, arith, ◌∙◌}
use pi_watch.Evidence.Defs.{ExecutionEvidence}
use pi_watch.Evidence.Extends.{EvidenceExtends, merge_evidence-EvidenceExtends, Keeps}
use pi_watch.Evidence.Order.{EvidenceExtends-refl, EvidenceExtends-trans, Keeps-refl, Keeps-trans}
use pi_watch.Store.Tables.{
  JobState, reserved, claimed, settled, DecisionText, JobRow, ControlRow, ClaimRow, latest_of,
}
use pi_watch.Store.Rows.{evidence_to_row, row_to_evidence-evidence_to_row}
use pi_watch.Store.Launch.{latest_finalized, latest_evidence}
use pi_watch.Store.View.{JobView}
use pi_watch.Store.Step.{
  JobStep, unchanged, reserve_step, cancel_step, claim_step, beat_step, authorize_step,
  suppress_step, publish_step, uncertain_step, acknowledge_step, revised, next_revision,
}
use pi_watch.Store.Life.Revisions.{cons-IsNumbered}
use pi_watch.Store.Life.Sound.{IsSound}

abbrev pub decision_of : Option ControlRow → Option DecisionText
decision_of none = none
decision_of (some c) = c.launch_decision

abbrev pub cancellation_of : Option ControlRow → Option ℕ
cancellation_of none = none
cancellation_of (some c) = c.cancellation_requested_at_ms

abbrev pub claim_of : Option ClaimRow → Option Text
claim_of none = none
claim_of (some row) = some row.claim_id

abbrev pub state_rank : JobState → ℕ
state_rank reserved = 0
state_rank claimed = 1
state_rank settled = 2

-- A job's row stays, and only its state changes, forward.
abbrev pub JobForward : Option JobRow → Option JobRow → Type 0
JobForward none b = Unit
JobForward (some j) none = ⊥
JobForward (some j) (some k) =
    (k ≡ record j { state = k.state }) × (state_rank j.state ≤ state_rank k.state)

pub record Forward (v w : JobView) : Type 0 where
  pub job : JobForward v.job w.job
  pub decision : Keeps (decision_of v.control) (decision_of w.control)
  pub cancellation : Keeps (cancellation_of v.control) (cancellation_of w.control)
  pub claim : Keeps (claim_of v.claim) (claim_of w.claim)
  pub evidence :
      EvidenceExtends
        (latest_evidence (latest_of v.results))
        (latest_evidence (latest_of w.results))
  pub final : latest_finalized (latest_of v.results) ≡ true → w.results ≡ v.results

JobForward-refl : (j : Option JobRow) → JobForward j j
JobForward-refl none = tt
JobForward-refl (some j) = (refl, omega arith)

JobForward-trans : (a b c : Option JobRow) → JobForward a b → JobForward b c → JobForward a c
JobForward-trans none b c h k = tt
JobForward-trans (some a) none c h k = absurd h
JobForward-trans (some a) (some b) none h k = k
JobForward-trans (some a) (some b) (some c) h k =
    (ground (arith, h.0, k.0), omega (arith, h.1, k.1))

pub Forward-refl : (v : JobView) → Forward v v
Forward-refl v = record {
  job = JobForward-refl v.job;
  decision = Keeps-refl (decision_of v.control);
  cancellation = Keeps-refl (cancellation_of v.control);
  claim = Keeps-refl (claim_of v.claim);
  evidence = EvidenceExtends-refl (latest_evidence (latest_of v.results));
  final = λ h. refl;
}

pub Forward-trans : (u v w : JobView) → Forward u v → Forward v w → Forward u w
Forward-trans u v w h k = record {
  job = JobForward-trans u.job v.job w.job h.job k.job;
  decision = Keeps-trans _ _ _ h.decision k.decision;
  cancellation = Keeps-trans _ _ _ h.cancellation k.cancellation;
  claim = Keeps-trans _ _ _ h.claim k.claim;
  evidence = EvidenceExtends-trans _ _ _ h.evidence k.evidence;
  final = λ f. k.final (rw (h.final f) f) ∙ h.final f;
}

-- Only the job's state, its control row and its claim change.
rows-Forward :
    (v : JobView) (job : Option JobRow) (control : Option ControlRow) (claim : Option ClaimRow)
    → JobForward v.job job
    → Keeps (decision_of v.control) (decision_of control)
    → Keeps (cancellation_of v.control) (cancellation_of control)
    → Keeps (claim_of v.claim) (claim_of claim)
    → Forward v (record v { job = job; control = control; claim = claim })
rows-Forward v job control claim a b c d = record {
  job = a;
  decision = b;
  cancellation = c;
  claim = d;
  evidence = EvidenceExtends-refl (latest_evidence (latest_of v.results));
  final = λ h. refl;
}

newest_evidence :
    (v : JobView) (owner : Text) (merged : ExecutionEvidence) (at : ℕ)
    → IsSound v
    → latest_finalized (latest_of v.results) ≡ false
    → latest_evidence (latest_of (revised v owner merged at).results) ≡ merged
unfolding latest_evidence
newest_evidence v owner merged at s open_now =
    let row = evidence_to_row (next_revision v) merged at in
    let (numbered, newest) =
      cons-IsNumbered row v.results s.numbered open_now (unfold evidence_to_row in refl) in
    rw (newest, row_to_evidence-evidence_to_row)

-- A further revision on a job that is not final.
revision-Forward :
    (v : JobView) (owner : Text) (merged : ExecutionEvidence) (at : ℕ) (job : Option JobRow)
    (control : Option ControlRow)
    → IsSound v
    → latest_finalized (latest_of v.results) ≡ false
    → EvidenceExtends (latest_evidence (latest_of v.results)) merged
    → JobForward v.job job
    → Keeps (decision_of v.control) (decision_of control)
    → Keeps (cancellation_of v.control) (cancellation_of control)
    → Forward v (record (revised v owner merged at) { job = job; control = control })
revision-Forward v owner merged at job control s open_now grows a b c = record {
  job = a;
  decision = b;
  cancellation = c;
  claim = Keeps-refl (claim_of v.claim);
  evidence = rw (newest_evidence v owner merged at s open_now) grows;
  final = λ h. cc;
}

-- No step takes back what a sound job has established.
pub JobStep-Forward : {v w : JobView} → JobStep v w → IsSound v → Forward v w
JobStep-Forward {v} (unchanged e) s = rw e (Forward-refl v)
JobStep-Forward {v} (reserve_step j absent free state due e) s =
    rw e (
      rows-Forward v (some j) _ v.claim (ground arith) (ground arith) (ground arith) (Keeps-refl _))
JobStep-Forward {v} (cancel_step j c at job control state open_now uncancelled e) s = rw e (
    rows-Forward v v.job _ v.claim (JobForward-refl v.job) (ground arith) (ground arith)
      (Keeps-refl _))
JobStep-Forward {v} (claim_step j row job state free zero_count e) s = rw e (
    rows-Forward v _ v.control (some row) (ground arith) (Keeps-refl _) (Keeps-refl _)
      (ground arith))
JobStep-Forward {v} (beat_step row at claim e) s = rw e (
    rows-Forward v v.job v.control _ (JobForward-refl v.job) (Keeps-refl _) (Keeps-refl _)
      (ground arith))
JobStep-Forward {v}
      (authorize_step j c row at job control claim free uncancelled early state initial e) s =
    rw e (
      rows-Forward v v.job _ v.claim (JobForward-refl v.job) (ground arith) (ground arith)
        (Keeps-refl _))
JobStep-Forward {v}
      (suppress_step j c row at cancelled merged job control claim free was late state initial m e)
      s =
    rw e (
      revision-Forward v j.owner_uuid merged at _ _ s (ground (arith, s.rules))
        (merge_evidence-EvidenceExtends _ _ false true m) (ground arith) (ground arith)
        (ground arith))
JobStep-Forward {v} (publish_step j row at input final merged job claim open_now m e) s = rw e (
    revision-Forward v j.owner_uuid merged at _ v.control s open_now
      (merge_evidence-EvidenceExtends _ _ (not final) final m) (ground arith) (Keeps-refl _)
      (Keeps-refl _))
JobStep-Forward {v} (uncertain_step j at input merged row job state open_now m e) s = rw e (record {
  job = JobForward-refl v.job;
  decision = Keeps-refl _;
  cancellation = Keeps-refl _;
  claim = Keeps-refl _;
  evidence =
      rw (newest_evidence v j.owner_uuid merged at s open_now)
        (merge_evidence-EvidenceExtends _ _ true false m);
  final = λ h. cc;
})
JobStep-Forward {v} (acknowledge_step f keeps e) s = rw e (record {
  job = JobForward-refl v.job;
  decision = Keeps-refl _;
  cancellation = Keeps-refl _;
  claim = Keeps-refl _;
  evidence = EvidenceExtends-refl _;
  final = λ h. refl;
})
