-- ===== src/Store/Authority/Notices.antt =====
-- src/job-store.ts: whose notices a caller can list and acknowledge.
use pi_watch.Base.{
  ℕ, Text, text_eq, text_eq→eq, text_eq_refl, true, false, Option, none, some, List, [], ◌∷◌, map,
  any, keep, every, ◌≡◌, refl, arith,
}
use pi_watch.JobTypes.Errors.{Thrown, store_error, not_found, ok, err}
use pi_watch.JobTypes.Validate.{string}
use pi_watch.Store.Tables.{JobRow, NoticeRow, Db, find_job, find_owned}
use pi_watch.Store.Publish.{acknowledge_notice, is_notice}
use pi_watch.Store.Operations.{validate_owner_uuid}
use pi_watch.Store.Read.{list_notices, is_addressed, owns}
use pi_watch.Store.View.{JobView}
use pi_watch.Store.Step.{
  JobStep, unchanged, reserve_step, cancel_step, claim_step, beat_step, authorize_step,
  suppress_step, publish_step, uncertain_step, acknowledge_step,
}
use pi_watch.Store.Run.{
  Call, IsSoundDb, call, call-step, call-IsSoundDb, run, new_store, new_store-IsSoundDb,
}
use pi_watch.Store.Transaction.{Store}
use pi_watch.Store.Authority.Fence.{find_owned-none}

-- Every notice of a job is addressed to its owner.
abbrev IsAddressed : Option JobRow → List NoticeRow → Type 0
IsAddressed none notices = notices ≡ []
IsAddressed (some j) notices = every (is_addressed j.owner_uuid) notices ≡ true

map-is_addressed :
    (owner : Text) (f : NoticeRow → NoticeRow)
    → ((n : NoticeRow) → ((f n).revision ≡ n.revision) × ((f n).owner_uuid ≡ n.owner_uuid))
    → (notices : List NoticeRow) → every (is_addressed owner) notices ≡ true
    → every (is_addressed owner) (map f notices) ≡ true
map-is_addressed owner f keeps [] h = refl
map-is_addressed owner f keeps (n ∷ notices) h =
    ground (arith, keeps n, h, map-is_addressed owner f keeps notices)

map-IsAddressed :
    (job : Option JobRow) (f : NoticeRow → NoticeRow)
    → ((n : NoticeRow) → ((f n).revision ≡ n.revision) × ((f n).owner_uuid ≡ n.owner_uuid))
    → (notices : List NoticeRow) → IsAddressed job notices
    → IsAddressed job (map f notices)
map-IsAddressed none f keeps notices h = rw h refl
map-IsAddressed (some j) f keeps notices h = map-is_addressed j.owner_uuid f keeps notices h

JobStep-IsAddressed :
    {v w : JobView} → JobStep v w → IsAddressed v.job v.notices → IsAddressed w.job w.notices
JobStep-IsAddressed (unchanged e) a = rw e a
JobStep-IsAddressed (reserve_step j absent free fresh due e) a = ground (arith, absent, e, a)
JobStep-IsAddressed (cancel_step j c at job control open_now rows free e) a = rw e a
JobStep-IsAddressed (claim_step j row job state free zero_beats e) a = ground (arith, job, e, a)
JobStep-IsAddressed (beat_step row at claim e) a = rw e a
JobStep-IsAddressed (authorize_step j c row at job control claim free free' early state initial e)
      a =
    rw e a
JobStep-IsAddressed
      (suppress_step j c row at cancelled merged job control claim free asked late state initial m
        e)
      a =
    ground (arith, job, e, a, text_eq_refl j.owner_uuid)
JobStep-IsAddressed (publish_step j row at input final merged job claim open_now m e) a =
    ground (arith, job, e, a, text_eq_refl j.owner_uuid)
JobStep-IsAddressed (uncertain_step j at input merged row job state open_now m e) a =
    ground (arith, job, e, a, text_eq_refl j.owner_uuid)
JobStep-IsAddressed {v} (acknowledge_step f keeps e) a =
    rw e (map-IsAddressed v.job f keeps v.notices a)

abbrev AllAddressed : Db → Type 0
AllAddressed db = (id : Text) → IsAddressed (find_job id db.jobs) (db.notices id)

run-AllAddressed :
    (sha256 : Text → Text) (calls : List Call) (store : Store)
    → IsSoundDb store.db
    → AllAddressed store.db
    → AllAddressed (run sha256 calls store).db
unfolding run
run-AllAddressed sha256 [] store s a = a
run-AllAddressed sha256 (c ∷ calls) store s a =
    run-AllAddressed sha256 calls (call sha256 c store).1 (call-IsSoundDb sha256 c store s)
      (λ id. JobStep-IsAddressed ((call-step sha256 c store s.distinct).1 id) (a id))

new_store-AllAddressed : AllAddressed new_store.db
unfolding find_job
new_store-AllAddressed id = refl

-- A list of notices to one owner has none to another.
foreign_notices :
    (owner other : Text) (revision : ℕ) (notices : List NoticeRow)
    → text_eq owner other ≡ false
    → every (is_addressed owner) notices ≡ true
    → (any (is_notice revision other) notices ≡ false) × (keep (is_addressed other) notices ≡ [])
foreign_notices owner other revision [] apart h = (refl, refl)
foreign_notices owner other revision (n ∷ notices) apart h = ground (
  arith,
  apart,
  h,
  text_eq→eq n.owner_uuid owner,
  foreign_notices owner other revision notices apart,
)

no_notices :
    (owner : Text) (revision : ℕ) (job : Option JobRow) (notices : List NoticeRow)
    → owns owner job ≡ false
    → IsAddressed job notices
    → (any (is_notice revision owner) notices ≡ false) × (keep (is_addressed owner) notices ≡ [])
no_notices owner revision none notices foreign h = rw h (refl, refl)
no_notices owner revision (some j) notices foreign h =
    foreign_notices j.owner_uuid owner revision notices foreign h

abbrev pub no_notice : Thrown
no_notice = store_error not_found "Notice not found for this owner."

-- Whatever calls a new store has answered, an owner, a valid UUID, without a job of this id cannot
-- acknowledge a notice of it, which throws NOT_FOUND, and lists none.
pub notices_fenced :
    (sha256 : Text → Text) (calls : List Call) (now : ℕ) (owner job_id : Text) (revision : ℕ)
    → validate_owner_uuid (string owner) ≡ ok owner
    → find_owned job_id owner (run sha256 calls new_store).db.jobs ≡ none
    → let db = (run sha256 calls new_store).db in
      (acknowledge_notice now owner job_id revision db ≡ err no_notice)
      × (list_notices (string owner) job_id db ≡ ok [])
unfolding acknowledge_notice list_notices
notices_fenced sha256 calls now owner job_id revision valid foreign =
    let db = (run sha256 calls new_store).db in
    let addressed =
      run-AllAddressed sha256 calls new_store new_store-IsSoundDb new_store-AllAddressed job_id in
    let (none_there, none_kept) =
      no_notices owner revision (find_job job_id db.jobs) (db.notices job_id)
        (find_owned-none owner job_id db.jobs foreign) addressed in
    (rw none_there refl, ground (arith, valid, none_kept))
