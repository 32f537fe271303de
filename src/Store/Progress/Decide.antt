-- ===== src/Store/Progress/Decide.antt =====
-- src/job-store.ts: `decideLaunch`, asked by the holder of the claim.
use pi_watch.Base.{
  ℕ, ◌+◌, Text, Bool, true, false, not, Option, none, some, ◌≡◌, ◌≢◌, inl, inr, arith,
  if◌then◌else◌, Bool-cases,
}
use pi_watch.JobTypes.Errors.{ok, err, Thrown, returns}
use pi_watch.Evidence.Defs.{ExecutionEvidence, StreamCaptureFacts, initial_evidence}
use pi_watch.Evidence.Defs
use pi_watch.Evidence.Merge.{
  merge_launch, merge_known, merge_cleanup, merge_flag, merge_stream, merge_outcome,
  merge_cleanup_facts, merge_evidence,
}
use pi_watch.Store.Tables.{
  JobRow, ControlRow, ResultRow, Db, get_job_row, latest_of, insert_result, insert_notice,
}
use pi_watch.Store.Rows.{
  JobControlSnapshot, row_to_control, is_initial_evidence_only, row_to_evidence, evidence_to_row,
}
use pi_watch.Store.Launch.{
  LaunchDecisionResult, latest_evidence, latest_revision, suppression_evidence, suppress_launch,
  decide_launch, assert_runner_token, lacks_claim, is_settled,
}
use pi_watch.Store.View.{get_job_row-ok, view}
use pi_watch.Store.Life.Fresh.{result-fresh, notice-fresh}
use pi_watch.Store.Life.Revisions.{latest_of-head}
use pi_watch.Store.Life.Sound.{IsSound, ControlRules}
use pi_watch.Store.Run.{IsSoundDb}

abbrev unavailable_facts : StreamCaptureFacts
unavailable_facts = record {
  available = some false;
  truncated = false;
  incomplete = false;
  open_at_cutover = false;
}

-- The evidence of a suppressed launch.
abbrev pub suppressed_evidence : Bool → ExecutionEvidence
suppressed_evidence cancelled = record {
  launch = if cancelled then Defs.suppressed_cancelled else Defs.suppressed_deadline;
  shell_code = none;
  shell_signal = none;
  cleanup_state = Defs.not_required;
  cleanup_term_observation = none;
  cleanup_kill_intent_observed = false;
  cancellation_intent_observed = cancelled;
  deadline_trigger_observed = not cancelled;
  stdout = unavailable_facts;
  stderr = unavailable_facts;
  uncertain = false;
  finalized = true;
}

-- Evidence without an observed fact.
record IsUnobserved (e : ExecutionEvidence) : Type 0 where
  launch : e.launch ≡ Defs.unknown
  code : e.shell_code ≡ none
  signal : e.shell_signal ≡ none
  cleanup : e.cleanup_state ≡ Defs.not_requested
  term : e.cleanup_term_observation ≡ none
  kill : e.cleanup_kill_intent_observed ≡ false
  cancellation : e.cancellation_intent_observed ≡ false
  deadline : e.deadline_trigger_observed ≡ false
  stdout : e.stdout ≡ Defs.default_stream_facts
  stderr : e.stderr ≡ Defs.default_stream_facts

merge_suppression :
    (e : ExecutionEvidence) (cancelled : Bool)
    → IsUnobserved e
    → merge_evidence e (suppression_evidence cancelled) false true
      ≡ ok (suppressed_evidence cancelled)
unfolding merge_evidence merge_outcome merge_cleanup_facts merge_cleanup merge_launch merge_known
    merge_flag merge_stream
merge_suppression e true u = ground (arith, u)
merge_suppression e false u = ground (arith, u)

latest_evidence-IsUnobserved :
    (latest : Option ResultRow)
    → is_initial_evidence_only latest ≡ true
    → IsUnobserved (latest_evidence latest)
unfolding is_initial_evidence_only latest_evidence row_to_evidence
latest_evidence-IsUnobserved none h = ground arith
latest_evidence-IsUnobserved (some row) h = ground arith

row_to_control-total :
    (row : Option ControlRow) (settled_now : Bool)
    → ControlRules row settled_now
    → (control : JobControlSnapshot) × (row_to_control row ≡ ok control)
unfolding row_to_control
row_to_control-total none settled_now c = absurd c
row_to_control-total (some row) settled_now c =
    returns (row_to_control (some row)) (λ e h. ground arith)

suppress_launch-throws :
    (now : ℕ) (job_id : Text) (j : JobRow) (control : JobControlSnapshot) (cancelled : Bool)
    (db : Db)
    → IsSound (view job_id db)
    → is_initial_evidence_only (latest_of (db.results job_id)) ≡ true
    → (e : Thrown) → suppress_launch now job_id j control cancelled db ≢ err e
unfolding suppress_launch insert_result insert_notice evidence_to_row
suppress_launch-throws now job_id j control cancelled db s initial e h =
    let (same, count) = latest_of-head (db.results job_id) s.numbered in
    let revision = latest_revision (latest_of (db.results job_id)) + 1 in
    ground (
      arith,
      merge_suppression (latest_evidence (latest_of (db.results job_id))) cancelled
          (latest_evidence-IsUnobserved (latest_of (db.results job_id)) initial),
      result-fresh (db.results job_id) revision s.numbered (omega arith),
      notice-fresh (db.results job_id) (db.notices job_id) revision s.numbered s.announced
          (omega arith),
    )

suppress_launch-returns :
    (now : ℕ) (job_id : Text) (j : JobRow) (control : JobControlSnapshot) (cancelled : Bool)
    (db : Db)
    → IsSound (view job_id db)
    → is_initial_evidence_only (latest_of (db.results job_id)) ≡ true
    → (answer : LaunchDecisionResult × Db) × (suppress_launch now job_id j control cancelled db
        ≡ ok answer)
suppress_launch-returns now job_id j control cancelled db s initial =
    returns (suppress_launch now job_id j control cancelled db)
      (suppress_launch-throws now job_id j control cancelled db s initial)

decide_launch-throws :
    (sha256 : Text → Text) (now : ℕ) (owner job_id claim : Text) (token : Option Text) (db : Db)
    {j : JobRow} {control : JobControlSnapshot}
    → IsSound (view job_id db)
    → get_job_row job_id owner db ≡ ok j
    → assert_runner_token sha256 j token ≡ ok tt
    → lacks_claim (db.claims job_id) claim ≡ false
    → row_to_control (db.controls job_id) ≡ ok control
    → (e : Thrown) → decide_launch sha256 now owner job_id claim token db ≢ err e
unfolding decide_launch
decide_launch-throws sha256 now owner job_id claim token db {j} {control} s got capable held snap e
      h =
    elim (Bool-cases (is_initial_evidence_only (latest_of (db.results job_id)))) [
      | inl initial ↦
          let (cancels, q) = suppress_launch-returns now job_id j control true db s initial in
          let (expires, r) = suppress_launch-returns now job_id j control false db s initial in
          ground (arith, got, capable, held, snap, h, initial, q, r)
      | inr observed ↦ ground (arith, got, capable, held, snap, h, observed)
    ]

-- On a sound store `decideLaunch` does not throw when the holder of the claim asks for a job of
-- this owner with the original token.
pub decide_launch-total :
    (sha256 : Text → Text) (now : ℕ) (owner job_id claim : Text) (token : Option Text) (db : Db)
    {j : JobRow}
    → IsSoundDb db
    → get_job_row job_id owner db ≡ ok j
    → assert_runner_token sha256 j token ≡ ok tt
    → lacks_claim (db.claims job_id) claim ≡ false
    → (answer : LaunchDecisionResult × Db) × (decide_launch sha256 now owner job_id claim token db
        ≡ ok answer)
decide_launch-total sha256 now owner job_id claim token db {j} s got capable held =
    let (found, own) = get_job_row-ok job_id owner db s.distinct got in
    let v = s.sound job_id in
    let (control, snap) =
      row_to_control-total (db.controls job_id) (is_settled j.state)
        (ground (arith, v.rules, found)) in
    returns (decide_launch sha256 now owner job_id claim token db) (λ e h.
      decide_launch-throws sha256 now owner job_id claim token db v got capable held snap e h)
