-- ===== src/Store/Authority/Grants.antt =====
-- src/job-store.ts: what `decideLaunch` has checked when it authorizes a launch.
use pi_watch.Base.{
  ℕ, ◌<◌, Text, text_eq_refl, ◌⊎◌, Bool, true, false, Option, none, some, is_some, ◌≡◌, arith, ◌∙◌,
  inl, inr,
}
use pi_watch.JobTypes.Errors.{ok}
use pi_watch.Store.Tables.{Db, JobRow, ControlRow, authorized, known, get_job_row, latest_of}
use pi_watch.Store.Rows.{JobControlSnapshot, row_to_control, is_initial_evidence_only}
use pi_watch.Store.Launch.{
  LaunchDecisionResult, LaunchDisposition, authorized_now, suppressed_now, already_decided,
  precluded, assert_runner_token, decide_launch, suppress_launch, is_settled, lacks_claim,
  set_decision,
}
use pi_watch.Store.Life.Forward.{decision_of, cancellation_of}

unfoldable pub is_authorized_now : LaunchDisposition → Bool
is_authorized_now authorized_now = true
is_authorized_now suppressed_now = false
is_authorized_now already_decided = false
is_authorized_now precluded = false

suppress_launch-disposition :
    (now : ℕ) (job_id : Text) (j : JobRow) (control : JobControlSnapshot) (cancelled : Bool)
    (db : Db) {a : LaunchDecisionResult} {db' : Db}
    → suppress_launch now job_id j control cancelled db ≡ ok (a, db')
    → a.disposition ≡ suppressed_now
unfolding suppress_launch
suppress_launch-disposition now job_id j control cancelled db h = ground arith

-- The guards of an authorization, once the job and its control state are read.
record Grants (sha256 : Text → Text) (now : ℕ) (job_id claim : Text) (token : Option Text)
    (db db' : Db) (j : JobRow) (control : JobControlSnapshot) : Type 0 where
  proven : assert_runner_token sha256 j token ≡ ok tt
  held : lacks_claim (db.claims job_id) claim ≡ false
  undecided : control.launch_decision ≡ none
  uncancelled : control.cancellation_requested_at_ms ≡ none
  early : now < j.deadline_at_ms
  running : is_settled j.state ≡ false
  initial : is_initial_evidence_only (latest_of (db.results job_id)) ≡ true
  stored : db' ≡ set_decision job_id authorized now (db.controls job_id) db

decide_launch-cases :
    (sha256 : Text → Text) (now : ℕ) (owner job_id claim : Text) (token : Option Text) (db : Db)
    {a : LaunchDecisionResult} {db' : Db}
    → decide_launch sha256 now owner job_id claim token db ≡ ok (a, db')
    → is_authorized_now a.disposition ≡ true
    → (j : JobRow) × (control : JobControlSnapshot) × (get_job_row job_id owner db ≡ ok j)
      × (row_to_control (db.controls job_id) ≡ ok control)
      × ((suppress_launch now job_id j control (is_some control.cancellation_requested_at_ms) db
            ≡ ok (a, db'))
          ⊎ Grants sha256 now job_id claim token db db' j control)
unfolding decide_launch is_authorized_now
decide_launch-cases sha256 now owner job_id claim token db h is = ground arith

set_decision-control :
    (job_id : Text) (now : ℕ) (row : Option ControlRow) (db : Db) {control : JobControlSnapshot}
    → row_to_control row ≡ ok control
    → (control.launch_decision ≡ none → decision_of row ≡ none)
      × (cancellation_of row ≡ control.cancellation_requested_at_ms)
      × (decision_of ((set_decision job_id authorized now row db).controls job_id)
          ≡ some (known authorized))
unfolding row_to_control
set_decision-control job_id now row db h = ground (arith, text_eq_refl job_id)

-- A launch is authorized only to a caller with the job's capability token, when the job has one,
-- and the durable claim, for a job that is undecided, not
-- cancelled, not settled, without observed evidence and before its deadline; and then the decision
-- is what the control row says.
pub decide_launch-authorized :
    (sha256 : Text → Text) (now : ℕ) (owner job_id claim : Text) (token : Option Text) (db : Db)
    {a : LaunchDecisionResult} {db' : Db}
    → decide_launch sha256 now owner job_id claim token db ≡ ok (a, db')
    → is_authorized_now a.disposition ≡ true
    → (j : JobRow) × (get_job_row job_id owner db ≡ ok j)
      × (assert_runner_token sha256 j token ≡ ok tt)
      × (lacks_claim (db.claims job_id) claim ≡ false)
      × (decision_of (db.controls job_id) ≡ none)
      × (cancellation_of (db.controls job_id) ≡ none)
      × (now < j.deadline_at_ms)
      × (is_settled j.state ≡ false)
      × (is_initial_evidence_only (latest_of (db.results job_id)) ≡ true)
      × (decision_of (db'.controls job_id) ≡ some (known authorized))
unfolding is_authorized_now
decide_launch-authorized sha256 now owner job_id claim token db h is =
    let (j, control, got, snap, which) =
      decide_launch-cases sha256 now owner job_id claim token db h is in
    elim which [
      | inl s ↦ absurd (ground (arith, suppress_launch-disposition now job_id j control _ db s))
      | inr g ↦
          let (free, same, new) = set_decision-control job_id now (db.controls job_id) db snap in
          (
            j,
            got,
            g.proven,
            g.held,
            free g.undecided,
            same ∙ g.uncancelled,
            g.early,
            g.running,
            g.initial,
            rw g.stored new,
          )
    ]
