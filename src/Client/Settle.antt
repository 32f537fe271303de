-- ===== src/Client/Settle.antt =====
-- src/store-client.ts: how often the promise of a request settles, and with what.
use pi_watch.Base.{
  ℕ, ◌+◌, ◌≤◌, ◌<◌, Bool, Option, none, some, List, [], ◌∷◌, ◌++◌, map, ◌==◌, if◌then◌else◌, ◌≡◌,
  refl, arith, Option-cases, inl, inr, ◌∙◌, ap,
}
use pi_watch.JobTypes.Errors.{
  Result, ok, err, store_error, store_unavailable, Thrown, ambiguous_acceptance, store_write_error,
  unknown,
}
use pi_watch.Client.Wire.{Reply}
use pi_watch.Client.Requests.{
  Pending, Client, Op, Loss, loss_message, loss_error, new_client, lose_one, fail_all, request,
  find_pending, delete, on_reply, entry_of, Event, step, run,
}
use pi_watch.Client.Requests

-- How often an id waits, and how often it has settled.
abbrev pub waits : ℕ → List (ℕ × Pending) → ℕ
waits id [] = 0
waits id ((k, entry) ∷ pending) = (if k == id then 1 else 0) + waits id pending

waits-append :
    (id : ℕ) (xs ys : List (ℕ × Pending)) → waits id (xs ++ ys) ≡ waits id xs + waits id ys
waits-append id [] ys = omega arith
waits-append id (x ∷ xs) ys = omega (arith, waits-append id xs ys)

waits-delete :
    (id k : ℕ) (pending : List (ℕ × Pending))
    → waits id (delete k pending) ≡ (if k == id then 0 else waits id pending)
waits-delete id k [] = ground arith
waits-delete id k (p ∷ pending) = ground (arith, waits-delete id k pending)

find_pending-waits :
    (id : ℕ) (pending : List (ℕ × Pending)) {entry : Pending}
    → find_pending id pending ≡ some entry
    → 1 ≤ waits id pending
find_pending-waits id [] h = ground arith
find_pending-waits id (p ∷ pending) {entry} h =
    ground (arith, find_pending-waits id pending {entry = entry})

-- A reservation whose answer is lost names its candidate with an unknown outcome, a cancellation
-- or a launch decision is an unknown write, and any other call finds the store unavailable.
abbrev pub lost_answer : Loss → Op → Thrown
lost_answer loss (Requests.reserve candidate) = ambiguous_acceptance candidate unknown
lost_answer loss Requests.request_cancellation = store_write_error unknown
lost_answer loss Requests.decide_launch = store_write_error unknown
lost_answer loss _ = store_error store_unavailable (loss_message loss)

loss_error-entry_of : (loss : Loss) (op : Op) → loss_error loss (entry_of op) ≡ lost_answer loss op
unfolding loss_error entry_of
loss_error-entry_of loss op = ground arith

module _ {ℓ} {A : Type ℓ} where
  abbrev pub settles : ℕ → List (ℕ × Result A) → ℕ
  settles id [] = 0
  settles id ((k, r) ∷ settled) = (if k == id then 1 else 0) + settles id settled

  -- What the promise of an id became first.
  abbrev pub outcome_of : ℕ → List (ℕ × Result A) → Option (Result A)
  outcome_of id [] = none
  outcome_of id ((k, r) ∷ settled) =
      let rest = outcome_of id settled in if k == id then some r else rest

  pub record IsClient (client : Client A) : Type ℓ where
    pub once : (id : ℕ) → waits id client.pending + settles id client.settled ≤ 1
    pub fresh :
        (id : ℕ)
        → client.next_id ≤ id
        → (waits id client.pending ≡ 0) × (settles id client.settled ≡ 0)

  settles-lost :
      (id : ℕ) (loss : Loss) (pending : List (ℕ × Pending)) (settled : List (ℕ × Result A))
      → settles id (map (lose_one loss) pending ++ settled) ≡ waits id pending + settles id settled
  settles-lost id loss [] settled = omega arith
  settles-lost id loss ((k, entry) ∷ pending) settled =
      omega (arith, settles-lost id loss pending settled)

  fail_all-IsClient :
      (loss : Loss) (client : Client A) → IsClient client → IsClient (fail_all loss client)
  unfolding fail_all
  fail_all-IsClient loss client s = record {
    once = λ id. omega (arith, settles-lost id loss client.pending client.settled, s.once id);
    fresh = λ id new.
        (refl, omega (arith, settles-lost id loss client.pending client.settled, s.fresh id new));
  }

  request-IsClient :
      (op : Op) (posts : Bool) (client : Client A)
      → IsClient client
      → IsClient (request op posts client).1
  unfolding request
  request-IsClient op posts client s = record {
    once = λ id. ground (
      arith,
      s.once id,
      s.fresh id,
      waits-append id client.pending ((client.next_id, entry_of op) ∷ []),
    );
    fresh = λ id new. ground (
      arith,
      s.fresh id,
      new,
      waits-append id client.pending ((client.next_id, entry_of op) ∷ []),
    );
  }

  on_reply-IsClient :
      (k : ℕ) (reply : Reply A) (client : Client A)
      → IsClient client
      → IsClient (on_reply k reply client)
  unfolding on_reply
  on_reply-IsClient k reply client s = elim (Option-cases (find_pending k client.pending)) [
    | inl absent ↦ ground (arith, s, absent)
    | inr (entry, found) ↦
        let waiting = find_pending-waits k client.pending found in
        record {
          once = λ id. ground (arith, found, waiting, s.once id, waits-delete id k client.pending);
          fresh = λ id new.
              ground (arith, found, waiting, s.fresh id, new, waits-delete id k client.pending);
        }
  ]

  step-IsClient : (e : Event A) (client : Client A) → IsClient client → IsClient (step e client)
  unfolding step
  step-IsClient (Requests.asked op posts) client s = request-IsClient op posts client s
  step-IsClient (Requests.replied id reply) client s = on_reply-IsClient id reply client s
  step-IsClient (Requests.lost loss) client s = fail_all-IsClient loss client s

  pub run-IsClient :
      (events : List (Event A)) (client : Client A) → IsClient client → IsClient (run events client)
  unfolding run
  run-IsClient [] client s = s
  run-IsClient (e ∷ events) client s =
      run-IsClient events (step e client) (step-IsClient e client s)

  -- A promise that a caller holds waits or has settled, whatever happens.
  abbrev held : ℕ → Client A → ℕ
  held id client = waits id client.pending + settles id client.settled

  step-held :
      (id : ℕ) (e : Event A) (client : Client A)
      → IsClient client
      → id < client.next_id
      → (held id (step e client) ≡ held id client) × (id < (step e client).next_id)
  unfolding step request on_reply fail_all
  step-held id (Requests.asked op posts) client s old =
      ground (arith, old, waits-append id client.pending ((client.next_id, entry_of op) ∷ []))
  step-held id (Requests.replied k reply) client s old =
      elim (Option-cases (find_pending k client.pending)) [
        | inl absent ↦ ground (arith, old, absent)
        | inr (entry, found) ↦ ground (
          arith,
          old,
          found,
          find_pending-waits k client.pending found,
          s.once k,
          waits-delete id k client.pending,
        )
      ]
  step-held id (Requests.lost loss) client s old =
      (omega (arith, settles-lost id loss client.pending client.settled), old)

  run-held :
      (id : ℕ) (events : List (Event A)) (client : Client A)
      → IsClient client
      → id < client.next_id
      → held id (run events client) ≡ held id client
  unfolding run
  run-held id [] client s old = refl
  run-held id (e ∷ events) client s old =
      let (same, still) = step-held id e client s old in
      run-held id events (step e client) (step-IsClient e client s) still ∙ same

  request-held :
      (op : Op) (posts : Bool) (client : Client A) {id : ℕ}
      → IsClient client
      → (request op posts client).0 ≡ ok id
      → (held id (request op posts client).1 ≡ 1) × (id < (request op posts client).1.next_id)
  unfolding request
  request-held op posts client {id} s h =
      ground
        (arith, h, s.fresh id, waits-append id client.pending ((client.next_id, entry_of op) ∷ []))

  -- A promise that `request` handed out has settled at most once after any events, and exactly
  -- once when the worker is lost or the client is closed.
  pub request-settles :
      (op : Op) (posts : Bool) (client : Client A) (events : List (Event A)) (loss : Loss) {id : ℕ}
      → IsClient client
      → (request op posts client).0 ≡ ok id
      → let last = run events (request op posts client).1 in
        (settles id last.settled ≤ 1)
        × (settles id (fail_all loss last).settled ≡ 1)
        × (waits id (fail_all loss last).pending ≡ 0)
  unfolding fail_all
  request-settles op posts client events loss {id} s h =
      let next = request-IsClient op posts client s in
      let (one, old) = request-held op posts client s h in
      let last = run events (request op posts client).1 in
      let kept = run-held id events (request op posts client).1 next old in
      (
        omega (arith, kept, one),
        omega (arith, kept, one, settles-lost id loss last.pending last.settled),
        refl,
      )

  outcome_of-lost :
      (id : ℕ) (loss : Loss) (pending : List (ℕ × Pending)) (settled : List (ℕ × Result A))
      {entry : Pending}
      → find_pending id pending ≡ some entry
      → outcome_of id (map (lose_one loss) pending ++ settled) ≡ some (err (loss_error loss entry))
  outcome_of-lost id loss [] settled h = ground arith
  outcome_of-lost id loss (p ∷ pending) settled {entry} h =
      ground (arith, outcome_of-lost id loss pending settled {entry = entry})

  -- The loss of the worker rejects every waiting request with the answer of its operation that
  -- `lost_answer` gives, and every later request is refused.
  pub fail_all-lost_answer :
      (loss : Loss) (client : Client A) (id : ℕ) (op later : Op) (posts : Bool)
      → find_pending id client.pending ≡ some (entry_of op)
      → let next = fail_all loss client in
        (outcome_of id next.settled ≡ some (err (lost_answer loss op)))
        × (request later posts next
            ≡ (err (store_error store_unavailable "Store worker has stopped."), next))
  unfolding fail_all request
  fail_all-lost_answer loss client id op later posts h = (
    outcome_of-lost id loss client.pending client.settled h
        ∙ ap (λ e. some (err e)) (loss_error-entry_of loss op),
    refl,
  )
