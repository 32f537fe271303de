-- ===== src/Store/Step.antt =====
-- What the store promises of one job: the steps of its life, as a relation between two views of
-- it. Every step names what it needs and all that it changes.
use pi_watch.Base.{
  ℕ, ◌+◌, ◌<◌, ◌≤◌, Text, Bool, true, false, not, none, some, ◌∷◌, map, ◌≡◌, ◌≢◌, if◌then◌else◌,
}
use pi_watch.JobTypes.Errors.{ok}
use pi_watch.Evidence.Defs.{ExecutionEvidence, EvidenceInput}
use pi_watch.Evidence.Merge.{merge_evidence}
use pi_watch.Store.Tables.{
  reserved, claimed, settled, LaunchDecision, authorized, suppressed_cancelled, suppressed_deadline,
  known, JobRow, ControlRow, ClaimRow, NoticeRow, WitnessRow, latest_of,
}
use pi_watch.Store.Rows.{evidence_to_row, is_initial_evidence_only}
use pi_watch.Store.Launch.{latest_finalized, latest_revision, latest_evidence, suppression_evidence}
use pi_watch.Store.Publish.{fresh_control}
use pi_watch.Store.View.{JobView}

-- The notice that an INSERT makes.
abbrev pub fresh_notice : ℕ → Text → NoticeRow
fresh_notice revision owner = record {
  revision = revision;
  owner_uuid = owner;
  pending = 1;
  acknowledged_at_ms = none;
}

-- The number of the next revision.
abbrev pub next_revision : JobView → ℕ
next_revision v = latest_revision (latest_of v.results) + 1

-- The view with one more revision and its notice.
abbrev pub revised : JobView → Text → ExecutionEvidence → ℕ → JobView
revised v owner merged at = record v {
  results = evidence_to_row (next_revision v) merged at ∷ v.results;
  notices = fresh_notice (next_revision v) owner ∷ v.notices;
}

abbrev pub decided : ControlRow → LaunchDecision → ℕ → ControlRow
decided c decision at = record c {
  launch_decision = some (known decision);
  decided_at_ms = some at;
}

pub data JobStep (v w : JobView) : Type 0 where
  unchanged : w ≡ v → JobStep v w
  reserve_step :
      (j : JobRow)
      → v.job ≡ none
      → v.control ≡ none
      → j.state ≡ reserved
      → j.deadline_at_ms ≡ j.accepted_at_ms + j.deadline_ms
      → w ≡ record v { job = some j; control = some fresh_control }
      → JobStep v w
  cancel_step :
      (j : JobRow) (c : ControlRow) (at : ℕ)
      → v.job ≡ some j
      → v.control ≡ some c
      → j.state ≢ settled
      → latest_finalized (latest_of v.results) ≡ false
      → c.cancellation_requested_at_ms ≡ none
      → w ≡ record v { control = some (record c { cancellation_requested_at_ms = some at }) }
      → JobStep v w
  claim_step :
      (j : JobRow) (row : ClaimRow)
      → v.job ≡ some j
      → j.state ≡ reserved
      → v.claim ≡ none
      → row.heartbeat_counter ≡ 0
      → w ≡ record v { job = some (record j { state = claimed }); claim = some row }
      → JobStep v w
  beat_step :
      (row : ClaimRow) (at : ℕ)
      → v.claim ≡ some row
      → w ≡ record v {
        claim = some (record row {
          heartbeat_counter = row.heartbeat_counter + 1;
          heartbeat_at_ms = some at;
        });
      }
      → JobStep v w
  authorize_step :
      (j : JobRow) (c : ControlRow) (row : ClaimRow) (at : ℕ)
      → v.job ≡ some j
      → v.control ≡ some c
      → v.claim ≡ some row
      → c.launch_decision ≡ none
      → c.cancellation_requested_at_ms ≡ none
      → at < j.deadline_at_ms
      → j.state ≢ settled
      → is_initial_evidence_only (latest_of v.results) ≡ true
      → w ≡ record v { control = some (decided c authorized at) }
      → JobStep v w
  suppress_step :
      (j : JobRow) (c : ControlRow) (row : ClaimRow) (at : ℕ) (cancelled : Bool)
      (merged : ExecutionEvidence)
      → v.job ≡ some j
      → v.control ≡ some c
      → v.claim ≡ some row
      → c.launch_decision ≡ none
      → (cancelled ≡ true → c.cancellation_requested_at_ms ≢ none)
      → (cancelled ≡ false → j.deadline_at_ms ≤ at)
      → j.state ≢ settled
      → is_initial_evidence_only (latest_of v.results) ≡ true
      → merge_evidence
          (latest_evidence (latest_of v.results))
          (suppression_evidence cancelled)
          false
          true
        ≡ ok merged
      → w ≡ record (revised v j.owner_uuid merged at) {
        job = some (record j { state = settled });
        control =
            some (decided c (if cancelled then suppressed_cancelled else suppressed_deadline) at);
      }
      → JobStep v w
  publish_step :
      (j : JobRow) (row : ClaimRow) (at : ℕ) (input : EvidenceInput) (final : Bool)
      (merged : ExecutionEvidence)
      → v.job ≡ some j
      → v.claim ≡ some row
      → latest_finalized (latest_of v.results) ≡ false
      → merge_evidence (latest_evidence (latest_of v.results)) input (not final) final ≡ ok merged
      → w ≡ record (revised v j.owner_uuid merged at) {
        job = some (if final then record j { state = settled } else j);
      }
      → JobStep v w
  uncertain_step :
      (j : JobRow) (at : ℕ) (input : EvidenceInput) (merged : ExecutionEvidence) (row : WitnessRow)
      → v.job ≡ some j
      → j.state ≢ settled
      → latest_finalized (latest_of v.results) ≡ false
      → merge_evidence (latest_evidence (latest_of v.results)) input true false ≡ ok merged
      → w ≡ record (revised v j.owner_uuid merged at) { witnesses = row ∷ v.witnesses }
      → JobStep v w
  acknowledge_step :
      (f : NoticeRow → NoticeRow)
      → ((n : NoticeRow) → ((f n).revision ≡ n.revision) × ((f n).owner_uuid ≡ n.owner_uuid))
      → w ≡ record v { notices = map f v.notices }
      → JobStep v w
