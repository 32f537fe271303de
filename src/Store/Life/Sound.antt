-- ===== src/Store/Life/Sound.antt =====
-- src/job-store.ts: the well-formedness of a job.
use pi_watch.Base.{
  ℕ, ◌+◌, Text, Bool, true, false, not, Option, none, some, is_some, List, [], ◌∷◌, map, ◌≡◌, refl,
  arith,
}
use pi_watch.Evidence.Defs.{ExecutionEvidence}
use pi_watch.Evidence.Coherent.{IsCoherent, merge_evidence-IsCoherent}
use pi_watch.Evidence.Extends.{merge_evidence-Merged}
use pi_watch.Store.Tables.{
  claimed, authorized, suppressed_cancelled, suppressed_deadline, DecisionText, known, other,
  JobRow, ControlRow, ClaimRow, ResultRow, NoticeRow, latest_of,
}
use pi_watch.Store.Rows.{evidence_to_row, row_to_evidence-evidence_to_row}
use pi_watch.Store.Launch.{latest_finalized, latest_evidence, is_settled, is_reserved}
use pi_watch.Store.Publish.{fresh_control}
use pi_watch.Store.View.{JobView}
use pi_watch.Store.Step.{
  JobStep, unchanged, reserve_step, cancel_step, claim_step, beat_step, authorize_step,
  suppress_step, publish_step, uncertain_step, acknowledge_step, decided, revised, next_revision,
}
use pi_watch.Store.Life.Revisions.{IsNumbered, cons-IsNumbered}

abbrev pub is_suppressed : Option DecisionText → Bool
is_suppressed none = false
is_suppressed (some (known authorized)) = false
is_suppressed (some (known suppressed_cancelled)) = true
is_suppressed (some (known suppressed_deadline)) = true
is_suppressed (some (other t)) = false

abbrev pub is_readable : Option DecisionText → Bool
is_readable none = true
is_readable (some (known d)) = true
is_readable (some (other t)) = false

-- The control row exists, reads without corruption, and a suppressed launch is settled.
abbrev pub ControlRules : Option ControlRow → Bool → Type 0
ControlRules none settled_now = ⊥
ControlRules (some c) settled_now =
    (is_readable c.launch_decision ≡ true)
    × (is_some c.launch_decision ≡ is_some c.decided_at_ms)
    × (is_suppressed c.launch_decision ≡ true → settled_now ≡ true)

-- A job has its control row; it has a claim exactly if it is not `reserved`; it is `settled`
-- exactly if its newest revision is final; its deadline is its duration after acceptance.
abbrev pub JobRules : Option JobRow → Option ControlRow → Option ClaimRow → Bool → Type 0
JobRules none control claim final = (control ≡ none) × (claim ≡ none) × (final ≡ false)
JobRules (some j) control claim final =
    ControlRules control (is_settled j.state)
    × (is_some claim ≡ not (is_reserved j.state))
    × (is_settled j.state ≡ final)
    × (j.deadline_at_ms ≡ j.accepted_at_ms + j.deadline_ms)

-- Every revision has its notice, newest first.
abbrev pub IsAnnounced : List ResultRow → List NoticeRow → Type 0
IsAnnounced [] [] = Unit
IsAnnounced [] (n ∷ notices) = ⊥
IsAnnounced (r ∷ results) [] = ⊥
IsAnnounced (r ∷ results) (n ∷ notices) = (n.revision ≡ r.revision) × IsAnnounced results notices

pub record IsSound (v : JobView) : Type 0 where
  pub numbered : IsNumbered v.results
  pub coherent : IsCoherent (latest_evidence (latest_of v.results))
  pub rules : JobRules v.job v.control v.claim (latest_finalized (latest_of v.results))
  pub announced : IsAnnounced v.results v.notices

map-IsAnnounced :
    (f : NoticeRow → NoticeRow)
    → ((n : NoticeRow) → ((f n).revision ≡ n.revision) × ((f n).owner_uuid ≡ n.owner_uuid))
    → (results : List ResultRow) (notices : List NoticeRow) → IsAnnounced results notices
    → IsAnnounced results (map f notices)
map-IsAnnounced f keeps [] [] a = tt
map-IsAnnounced f keeps [] (n ∷ notices) a = a
map-IsAnnounced f keeps (r ∷ results) [] a = a
map-IsAnnounced f keeps (r ∷ results) (n ∷ notices) a =
    (ground (arith, keeps n, a.0), map-IsAnnounced f keeps results notices a.1)

-- A further revision, whose snapshot is coherent, on a job that is not final.
revised-IsSound :
    (v : JobView) (owner : Text) (merged : ExecutionEvidence) (at : ℕ)
    → IsSound v
    → latest_finalized (latest_of v.results) ≡ false
    → IsCoherent merged
    → let w = revised v owner merged at in
      IsNumbered w.results
      × IsCoherent (latest_evidence (latest_of w.results))
      × (latest_finalized (latest_of w.results) ≡ merged.finalized)
      × IsAnnounced w.results w.notices
unfolding latest_evidence evidence_to_row
revised-IsSound v owner merged at s open_now good =
    let row = evidence_to_row (next_revision v) merged at in
    let (numbered, newest) = cons-IsNumbered row v.results s.numbered open_now refl in
    (
      numbered,
      rw newest (rw row_to_evidence-evidence_to_row good),
      rw newest (ground arith),
      (refl, s.announced),
    )

-- The rules of a view that changes neither its results nor its notices.
kept :
    (v : JobView) (job : Option JobRow) (control : Option ControlRow) (claim : Option ClaimRow)
    → IsSound v
    → JobRules job control claim (latest_finalized (latest_of v.results))
    → IsSound (record v { job = job; control = control; claim = claim })
kept v job control claim s rules = record {
  numbered = s.numbered;
  coherent = s.coherent;
  rules = rules;
  announced = s.announced;
}

-- Every step of a job's life keeps it sound.
pub JobStep-IsSound : {v w : JobView} → JobStep v w → IsSound v → IsSound w
JobStep-IsSound (unchanged e) s = rw e s
JobStep-IsSound {v} (reserve_step j absent free state due e) s =
    rw e (kept v (some j) (some fresh_control) v.claim s (ground (arith, s.rules)))
JobStep-IsSound {v} (cancel_step j c at job control state open_now uncancelled e) s = rw e (
    kept v v.job (some (record c { cancellation_requested_at_ms = some at })) v.claim s
      (ground (arith, s.rules)))
JobStep-IsSound {v} (claim_step j row job state free zero_count e) s =
    rw e (
      kept v (some (record j { state = claimed })) v.control (some row) s (ground (arith, s.rules)))
JobStep-IsSound {v} (beat_step row at claim e) s =
    rw e (kept v v.job v.control _ s (ground (arith, s.rules)))
JobStep-IsSound {v}
      (authorize_step j c row at job control claim free uncancelled early state initial e) s =
    rw e (kept v v.job (some (decided c authorized at)) v.claim s (ground (arith, s.rules)))
JobStep-IsSound {v}
      (suppress_step j c row at cancelled merged job control claim free was late state initial m e)
      s =
    let good = merge_evidence-IsCoherent _ _ false true m s.coherent in
    let open_now : latest_finalized (latest_of v.results) ≡ false = ground (arith, s.rules) in
    let (numbered, coherent, final, announced) =
      revised-IsSound v j.owner_uuid merged at s open_now good in
    let set_final = (merge_evidence-Merged _ _ false true m).finalized_set in
    rw e (record {
      numbered = numbered;
      coherent = coherent;
      rules = ground (arith, s.rules, final, set_final);
      announced = announced;
    })
JobStep-IsSound {v} (publish_step j row at input final merged job claim open_now m e) s =
    let good = merge_evidence-IsCoherent _ _ (not final) final m s.coherent in
    let (numbered, coherent, now_final, announced) =
      revised-IsSound v j.owner_uuid merged at s open_now good in
    let set_final = (merge_evidence-Merged _ _ (not final) final m).finalized_set in
    rw e (record {
      numbered = numbered;
      coherent = coherent;
      rules = ground (arith, s.rules, now_final, set_final);
      announced = announced;
    })
JobStep-IsSound {v} (uncertain_step j at input merged row job state open_now m e) s =
    let good = merge_evidence-IsCoherent _ _ true false m s.coherent in
    let (numbered, coherent, now_final, announced) =
      revised-IsSound v j.owner_uuid merged at s open_now good in
    let set_final = (merge_evidence-Merged _ _ true false m).finalized_set in
    rw e (record {
      numbered = numbered;
      coherent = coherent;
      rules = ground (arith, s.rules, now_final, set_final);
      announced = announced;
    })
JobStep-IsSound {v} (acknowledge_step f keeps e) s = rw e (record {
  numbered = s.numbered;
  coherent = s.coherent;
  rules = s.rules;
  announced = map-IsAnnounced f keeps v.results v.notices s.announced;
})
