-- ===== src/Profeex/Orders.antt =====
-- An order of ProfeeX (app/resource_providers/profeex.py): `_create_order`, `_extract_task_id`, and
-- the polling of its status. The polling runs on fuel, one tick of the timeout for a request.
use tron_shkeeper.Base.{
  ℕ, zero, suc, ◌+◌, min, String, Bool, true, false, Option, none, some, List, [], ◌∷◌, ◌==◌, ◌=s◌,
  contains, if◌then◌else◌,
}
use tron_shkeeper.Payout.Types.{Exc, plain_error}
use tron_shkeeper.Effect.{pure, raise, ◌>>=◌, ◌>>◌, modify, gets}
use tron_shkeeper.Profeex.Failures.{
  ProviderFailure, classify_profeex_failure, Entry, missing, nested, text, Body, Reply, response,
  failed, request_exception_code, response_failure_code, terminal_status_error_code,
}
use tron_shkeeper.Profeex.Client.{
  delegation, Settings, Outside, P, set_last_failure, set_failure, consult, purchase, time_left,
  rest,
}

-- The statuses that end the polling, in success and in failure.
pub record Statuses : Type 0 where
  pub success : List String
  pub failure : List String

abbrev pub order_statuses : Statuses
order_statuses = record {
  success = "ACTIVE" ∷ [];
  failure = "FAILED" ∷ "CANCELLED" ∷ "COMPLETED" ∷ "unknown" ∷ [];
}

abbrev pub activation_statuses : Statuses
activation_statuses = record {
  success = "ACTIVE" ∷ "COMPLETED" ∷ [];
  failure = "FAILED" ∷ "CANCELLED" ∷ "unknown" ∷ [];
}

abbrev pub pending_statuses : List String
pending_statuses = "QUEUED" ∷ "PENDING" ∷ "PROCESSING" ∷ []

pub data Judgement : Type 0 where
  succeeded has_failed unexpected is_pending type_error : Judgement

-- Which of the sets the status is in; an array or an object cannot be looked for in a set.
unfoldable pub judge_status : Statuses → Entry → Judgement
judge_status statuses (text status) =
    if contains status statuses.success
    then succeeded
    else if contains status statuses.failure
    then has_failed
    else if contains status pending_statuses
    then is_pending
    else unexpected
judge_status statuses nested = type_error
judge_status statuses _ = unexpected

abbrev order_error_code : Body → String
order_error_code order = elim (order.error_code) [
  | text code ↦ if code =s "" then terminal_status_error_code order.status else code
  | _ ↦ terminal_status_error_code order.status
]

-- `_order_error_from_order`, the failure of its exception
unfoldable pub order_error_from_order : Body → Option String → ProviderFailure
unfolding terminal_status_error_code
order_error_from_order order task_id =
    classify_profeex_failure (order_error_code order) task_id
      (elim task_id [ none ↦ false | some _ ↦ true ])

-- How `_wait_for_status` ends: with the order, with the exception that carries the failure, or
-- without fuel.
pub data Waited : Type 0 where
  settled : Body → Waited
  broken : ProviderFailure → Waited
  out_of_fuel : Waited

-- The TypeError of a set that is asked for an array or an object.
abbrev pub unhashable_status : Exc
unhashable_status = plain_error "unhashable type"

-- An order without a status is pending.
abbrev pub with_status : Body → Body
with_status order = elim (order.status) [
  | missing ↦ record order { status = text "PENDING" }
  | _ ↦ order
]

module _ {W : Type 0} where
  -- What a purchase that was not refused gives.
  unfoldable pub accept_order : Reply → P W (Option Body)
  unfolding pure modify ◌>>◌ request_exception_code response_failure_code
  accept_order (failed e) = set_failure (request_exception_code e) none false >> pure none
  accept_order (response r) =
      if r.status_code == 202
      then elim (r.body) [
        | none ↦ set_failure "ACCEPTED_ORDER_WITHOUT_TASK_ID" none true >> pure none
        | some order ↦ pure (some order)
      ]
      else (set_failure (response_failure_code r) none false >> pure none)

  abbrev no_task_id : P W (Option String)
  no_task_id = set_failure "ACCEPTED_ORDER_WITHOUT_TASK_ID" none true >> pure none

  -- `_extract_task_id`
  unfoldable pub extract_task_id : Body → P W (Option String)
  unfolding pure modify ◌>>◌
  extract_task_id order = elim (order.task_id) [
    | text task_id ↦ if task_id =s "" then no_task_id else pure (some task_id)
    | _ ↦ no_task_id
  ]

  -- What the poll gives, or the order as it was.
  unfoldable pub note_poll : String → Body → Reply → P W Body
  unfolding pure modify ◌>>◌
  note_poll task_id order (failed e) =
      set_failure "POLL_TEMPORARY_ERROR" (some task_id) true >> pure order
  note_poll task_id order (response r) =
      if r.status_code == 200
      then elim (r.body) [
        | none ↦ set_failure "POLL_TEMPORARY_ERROR" (some task_id) true >> pure order
        | some order' ↦ pure order'
      ]
      else (set_failure "POLL_TEMPORARY_ERROR" (some task_id) true >> pure order)

module _ {W : Type 0} (o : Outside W) where
  -- `_create_order`
  unfoldable pub create_order : Settings → String → ℕ → String → String → P W (Option Body)
  unfolding ◌>>=◌ purchase accept_order
  create_order settings receiver amount path duration_label =
      purchase o (delegation path receiver amount duration_label settings.currency) >>= accept_order

  -- Whether the deadline lets the order be polled, after a pause where it was polled before.
  unfoldable pub may_poll : Settings → ℕ → Bool → P W ℕ
  unfolding pure modify ◌>>=◌ time_left
  may_poll settings deadline polled = time_left o deadline >>= λ remaining.
      if remaining == 0
      then pure 0
      else if polled
      then (rest o (min settings.poll_interval remaining) >>= λ _. time_left o deadline)
      else pure remaining

  -- The loop of `_wait_for_status`
  unfoldable pub poll_until : ℕ → Settings → Statuses → ℕ → String → Body → Bool → P W Waited
  unfolding pure raise modify ◌>>=◌ ◌>>◌ consult judge_status order_error_from_order may_poll
      note_poll
  poll_until zero settings statuses deadline task_id order polled = pure out_of_fuel
  poll_until (suc fuel) settings statuses deadline task_id order polled =
      elim (judge_status statuses order.status) [
        | succeeded ↦ set_last_failure none >> pure (settled order)
        | has_failed ↦ pure (broken (order_error_from_order order (some task_id)))
        | unexpected ↦ pure (broken (classify_profeex_failure "UNKNOWN_ERROR" (some task_id) true))
        | type_error ↦ raise unhashable_status
        | is_pending ↦ may_poll settings deadline polled >>= λ remaining.
            if remaining == 0
            then pure (broken (classify_profeex_failure "ORDER_TIMEOUT" (some task_id) true))
            else (consult (o.poll task_id (min o.request_timeout remaining)) >>= λ reply.
                note_poll task_id order reply >>= λ order'.
                poll_until fuel settings statuses deadline task_id order' true)
      ]

  -- `_wait_for_status`
  unfoldable pub wait_for_status : Settings → Statuses → String → Body → P W Waited
  unfolding ◌>>=◌ gets poll_until
  wait_for_status settings statuses task_id order =
      gets (λ p. o.now p.outside + settings.timeout) >>= λ deadline.
      poll_until (suc settings.timeout) settings statuses deadline task_id order false
