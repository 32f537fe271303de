-- ===== src/Store/Operations.antt =====
-- src/job-store.ts: the operations of the object that `createJobStore` returns and that write:
-- validation, then one transaction. A request is a call; `perform` answers it.
use Prim.Native.String.{String}
use pi_watch.Base.{
  ℕ, Text, text, text_eq, Bool, false, ◌&&◌, Option, none, some, [], ◌∷◌, ◌==◌, if◌then◌else◌,
}
use pi_watch.JobTypes.Errors.{Result, ok, err, ◌>>=◌, store_error, validation_failed}
use pi_watch.JobTypes.Validate.{
  JsValue, string, is_hex, matches_uuid, allocate_reservation_id, is_well_formed_non_empty,
  validate_command, validate_deadline_ms, validate_request_key,
}
use pi_watch.Evidence.Defs.{EvidenceInput}
use pi_watch.Store.Tables.{RequestNamespace, tool_call, explicit, Body}
use pi_watch.Store.Transaction.{Engine, Store, in_transaction}
use pi_watch.Store.Launch.{
  CancellationResult, request_cancellation, RunnerClaim, claim_runner, LaunchDecisionResult,
  decide_launch, heartbeat,
}
use pi_watch.Store.Publish.{
  Reservation, ReservationResult, reserve, ResultRecord, publish_result, StaleWitness,
  publish_uncertain_result, acknowledge_notice,
}

-- `validateOwnerUuid`
unfoldable pub validate_owner_uuid : JsValue → Result Text
validate_owner_uuid (string owner) =
    if matches_uuid is_hex owner
    then ok owner
    else err (store_error validation_failed "Owner UUID is invalid.")
validate_owner_uuid _ = err (store_error validation_failed "Owner UUID is invalid.")

-- A string that `isWellFormedNonEmpty` accepts: `validateClaimId`, and the session path.
unfoldable pub validate_well_formed : JsValue → String → Result Text
validate_well_formed (string t) message =
    if is_well_formed_non_empty t then ok t else err (store_error validation_failed message)
validate_well_formed _ message = err (store_error validation_failed message)

-- `validateNamespace`
unfoldable pub validate_namespace : JsValue → Result RequestNamespace
validate_namespace (string t) =
    if text_eq t (text "tool_call")
    then ok tool_call
    else (if text_eq t (text "explicit")
        then ok explicit
        else err (store_error validation_failed "Request namespace is invalid."))
validate_namespace _ = err (store_error validation_failed "Request namespace is invalid.")

-- `isAbsolute` of `node:path`, on POSIX.
abbrev is_absolute : Text → Bool
is_absolute [] = false
is_absolute (c ∷ _) = c == b'/'

abbrev cwd_message : String
cwd_message = "Working directory must be an absolute, well-formed path."

unfoldable pub validate_cwd : JsValue → Result Text
validate_cwd (string t) =
    if is_absolute t && is_well_formed_non_empty t
    then ok t
    else err (store_error validation_failed cwd_message)
validate_cwd _ = err (store_error validation_failed cwd_message)

-- `ReservationInput`, before validation.
pub record ReservationInput : Type 0 where
  pub owner_uuid : JsValue
  pub session_path : JsValue
  pub namespace : JsValue
  pub request_key : JsValue
  pub command : JsValue
  pub cwd : JsValue
  pub deadline_ms : JsValue
  pub candidate_job_id : JsValue

-- The validation at the head of `reserve`, in its order; `fresh` is what `randomUUID()` returns.
unfoldable pub validate_reservation : Text → ReservationInput → Result Reservation
validate_reservation fresh input = do
  owner ← validate_owner_uuid input.owner_uuid
  session_path ← validate_well_formed input.session_path "Session path is invalid."
  namespace ← validate_namespace input.namespace
  request_key ← validate_request_key input.request_key
  command ← validate_command input.command
  cwd ← validate_cwd input.cwd
  deadline_ms ← validate_deadline_ms input.deadline_ms
  candidate ← allocate_reservation_id fresh input.candidate_job_id
  ok (record {
    owner_uuid = owner;
    session_path = session_path;
    namespace = namespace;
    request_key = request_key;
    command = command;
    cwd = cwd;
    deadline_ms = deadline_ms;
    candidate_job_id = candidate;
  })

-- A call of a writing operation, with its arguments in the source's order.
pub data Request : Type 0 where
  reserve_request : ReservationInput → Request
  cancel_request : JsValue → Text → Request
  decide_request : JsValue → Text → JsValue → Option Text → Request
  claim_request : JsValue → Text → JsValue → Option Text → Request
  heartbeat_request : JsValue → Text → JsValue → ℕ → Option Text → Request
  publish_request : JsValue → Text → JsValue → Option ℕ → EvidenceInput → Option Text → Request
  uncertain_request : JsValue → Text → StaleWitness → Request
  acknowledge_request : JsValue → Text → ℕ → Request

pub data Response : Type 0 where
  reservation : ReservationResult → Response
  cancellation : CancellationResult → Response
  decision : LaunchDecisionResult → Response
  claim : RunnerClaim → Response
  counter : ℕ → Response
  published : ResultRecord → Response
  acknowledged : Response

-- What one call meets: the clock, the random sources and the engine.
pub record Ambient : Type 0 where
  pub now : ℕ
  pub fresh_uuid : Text
  pub runner_token : Text
  pub engine : Engine

-- The body, its result made a response.
abbrev pub respond : {A : Type 0} → (A → Response) → Body A → Body Response
respond f body db = do done ← body db; ok (f done.0, done.1)

-- The job that an ambiguous acceptance names.
abbrev accepted_id : Response → Text
accepted_id (reservation r) = (r.job).job_id
accepted_id _ = []

-- Arguments that fail validation throw before the transaction.
abbrev pub validated {ℓ} :
    {A : Type ℓ} → Result A → (A → Result Response × Store) → Store → Result Response × Store
validated (ok a) f store = f a
validated (err e) f store = (err e, store)

module _ (sha256 : Text → Text) (ambient : Ambient) where
  open ambient use {now, fresh_uuid, runner_token, engine}

  transact : Body Response → Store → Result Response × Store
  transact body store = in_transaction engine body none false store

  -- One call of the store.
  unfoldable pub perform : Request → Store → Result Response × Store
  unfolding transact
  perform (reserve_request input) store =
      validated (validate_reservation fresh_uuid input)
        (λ r.
          in_transaction engine (respond reservation (reserve sha256 now runner_token r))
            (some accepted_id) false store)
        store
  perform (cancel_request owner_uuid job_id) store =
      validated (validate_owner_uuid owner_uuid)
        (λ owner. transact (respond cancellation (request_cancellation now owner job_id)) store)
        store
  perform (decide_request owner_uuid job_id claim_id token) store =
      validated (validate_owner_uuid owner_uuid)
        (λ owner.
          validated (validate_well_formed claim_id "Claim id is invalid.")
            (λ id.
              transact (respond decision (decide_launch sha256 now owner job_id id token)) store)
            store)
        store
  perform (claim_request owner_uuid job_id claim_id token) store =
      validated (validate_owner_uuid owner_uuid)
        (λ owner.
          validated (validate_well_formed claim_id "Claim id is invalid.")
            (λ id. transact (respond claim (claim_runner sha256 now owner job_id id token)) store)
            store)
        store
  perform (heartbeat_request owner_uuid job_id claim_id expected token) store =
      validated (validate_owner_uuid owner_uuid)
        (λ owner.
          validated (validate_well_formed claim_id "Claim id is invalid.")
            (λ id.
              transact (respond counter (heartbeat sha256 now owner job_id id expected token))
                store)
            store)
        store
  perform (publish_request owner_uuid job_id claim_id expected evidence token) store =
      validated (validate_owner_uuid owner_uuid)
        (λ owner.
          validated (validate_well_formed claim_id "Claim id is invalid.")
            (λ id.
              transact
                (respond published
                  (publish_result sha256 now owner job_id id expected evidence token))
                store)
            store)
        store
  perform (uncertain_request owner_uuid job_id witness) store =
      validated (validate_owner_uuid owner_uuid)
        (λ owner.
          transact (respond published (publish_uncertain_result now owner job_id witness)) store)
        store
  perform (acknowledge_request owner_uuid job_id revision) store =
      transact
        (respond (λ _. acknowledged)
          (λ db. do
            owner ← validate_owner_uuid owner_uuid
            acknowledge_notice now owner job_id revision db))
        store
