-- ===== src/Client/Requests.antt =====
-- src/store-client.ts: the table of pending requests, `request`, `failAll` and the response branch
-- of `onWorkerMessage`. A promise that a caller holds is an id; `settled` is what promises became.
use Prim.Native.String.{String}
use pi_watch.Base.{
  ℕ, suc, Text, text, Bool, true, false, Option, none, some, List, [], ◌∷◌, ◌++◌, map, ◌==◌,
  if◌then◌else◌,
}
use pi_watch.JobTypes.Errors.{
  store_unavailable, validation_failed, Thrown, store_error, ambiguous_acceptance,
  store_write_error, unknown, Result, ok, err,
}
use pi_watch.Client.Wire.{Reply, client_result}

-- `Pending`, without its callbacks.
pub record Pending : Type 0 where
  pub candidate : Option Text
  pub unknown_on_worker_loss : Bool

pub record Client {ℓ} (A : Type ℓ) : Type ℓ where
  pub next_id : ℕ
  pub pending : List (ℕ × Pending)
  pub worker_failed : Bool
  pub settled : List (ℕ × Result A)  -- newest first

-- The operations of `StoreClient`.
pub data Op : Type 0 where
  reserve : Text → Op
  get_job list_jobs observe_job request_cancellation decide_launch claim_runner heartbeat : Op
  publish_result publish_uncertain_result acknowledge_notice : Op
  list_notices list_pending_notices list_results : Op

-- What `request` is given for an operation: a reservation's candidate, and whether a lost answer
-- is an unknown write.
unfoldable pub entry_of : Op → Pending
entry_of (reserve candidate) = record { candidate = some candidate; unknown_on_worker_loss = false }
entry_of request_cancellation = record { candidate = none; unknown_on_worker_loss = true }
entry_of decide_launch = record { candidate = none; unknown_on_worker_loss = true }
entry_of _ = record { candidate = none; unknown_on_worker_loss = false }

unfoldable pub op_name : Op → Text
op_name (reserve candidate) = text "reserve"
op_name get_job = text "get_job"
op_name list_jobs = text "list_jobs"
op_name observe_job = text "observe_job"
op_name request_cancellation = text "request_cancellation"
op_name decide_launch = text "decide_launch"
op_name claim_runner = text "claim_runner"
op_name heartbeat = text "heartbeat"
op_name publish_result = text "publish_result"
op_name publish_uncertain_result = text "publish_uncertain_result"
op_name acknowledge_notice = text "acknowledge_notice"
op_name list_notices = text "list_notices"
op_name list_pending_notices = text "list_pending_notices"
op_name list_results = text "list_results"

-- How the worker is lost.
pub data Loss : Type 0 where
  worker_error stopped exited_unexpectedly closed : Loss

abbrev pub loss_message : Loss → String
loss_message worker_error = "Store worker failed."
loss_message stopped = "Store worker has stopped."
loss_message exited_unexpectedly = "Store worker exited unexpectedly."
loss_message closed = "Store client closed."

-- The error that `failAll` rejects one request with.
unfoldable pub loss_error : Loss → Pending → Thrown
loss_error loss entry = elim entry.candidate [
  | some id ↦ ambiguous_acceptance id unknown
  | none ↦
      if entry.unknown_on_worker_loss
      then store_write_error unknown
      else store_error store_unavailable (loss_message loss)
]

abbrev pub find_pending : ℕ → List (ℕ × Pending) → Option Pending
find_pending id [] = none
find_pending id ((k, entry) ∷ pending) =
    let rest = find_pending id pending in if k == id then some entry else rest

-- `pending.delete(id)`
abbrev pub delete : ℕ → List (ℕ × Pending) → List (ℕ × Pending)
delete id [] = []
delete id ((k, entry) ∷ pending) =
    let rest = delete id pending in if k == id then rest else (k, entry) ∷ rest

-- What happens to a client after its start.
pub data Event {ℓ} (A : Type ℓ) : Type ℓ where
  asked : Op → Bool → Event A
  replied : ℕ → Reply A → Event A
  lost : Loss → Event A

module _ {ℓ} {A : Type ℓ} where
  abbrev pub new_client : Client A
  new_client = record { next_id = 1; pending = []; worker_failed = false; settled = [] }

  abbrev pub lose_one : Loss → ℕ × Pending → ℕ × Result A
  lose_one loss (id, entry) = (id, err (loss_error loss entry))

  -- `failAll`
  unfoldable pub fail_all : Loss → Client A → Client A
  fail_all loss client = record client {
    worker_failed = true;
    pending = [];
    settled = map (lose_one loss) client.pending ++ client.settled;
  }

  -- `request`: a rejected promise, or the id of one that waits. `posts` is false if `postMessage`
  -- throws.
  unfoldable pub request : Op → Bool → Client A → Result ℕ × Client A
  request op posts client =
      if client.worker_failed
      then (err (store_error store_unavailable "Store worker has stopped."), client)
      else (let id = client.next_id in
          if posts
          then (
            ok id,
            record client {
              next_id = suc id;
              pending = client.pending ++ ((id, entry_of op) ∷ []);
            },
          )
          else (
            err (store_error validation_failed "Store request could not be sent."),
            record client { next_id = suc id },
          ))

  -- The response branch of `onWorkerMessage`.
  unfoldable pub on_reply : ℕ → Reply A → Client A → Client A
  on_reply id reply client = elim (find_pending id client.pending) [
    | none ↦ client
    | some entry ↦ record client {
      pending = delete id client.pending;
      settled = (id, client_result entry.candidate reply) ∷ client.settled;
    }
  ]

  unfoldable pub step : Event A → Client A → Client A
  step (asked op posts) client = (request op posts client).1
  step (replied id reply) client = on_reply id reply client
  step (lost loss) client = fail_all loss client

  unfoldable pub run : List (Event A) → Client A → Client A
  run [] client = client
  run (e ∷ events) client = run events (step e client)
