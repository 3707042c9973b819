-- ===== src/Profeex/Waits.antt =====
-- Proofs about the polling of an order (app/resource_providers/profeex.py).
use tron_shkeeper.Base.{
  contains, Bool-cases, inl, inr, ℕ, zero, suc, ◌+◌, ◌-◌, ◌≤◌, ◌<◌, ◌≡◌, refl, min, String, Bool,
  true, false, Option, none, some, List, ◌==◌, arith, if◌then◌else◌,
}
use tron_shkeeper.Payout.Types.{Exc}
use tron_shkeeper.Effect.{pure, raise, ◌>>=◌, ◌>>◌}
use tron_shkeeper.Effect.Contracts.{
  After, Contract, Contract-pure, Contract-raise, Contract-if, Contract-option, Contract-bind,
  Contract-then, Contract-modify, Contract-weaken, Contract-gets,
}
use tron_shkeeper.Profeex.Failures.{
  Entry, missing, other, nested, text, ProviderFailure, classify_profeex_failure, Body, Reply,
  response, failed,
}
use tron_shkeeper.Profeex.Client.{
  Settings, Purchase, Outside, Provider, P, set_last_failure, set_failure, consult, time_left, rest,
}
use tron_shkeeper.Profeex.Orders.{
  Statuses, Judgement, succeeded, has_failed, unexpected, is_pending, type_error, judge_status,
  unhashable_status, order_error_from_order, Waited, settled, broken, out_of_fuel, may_poll,
  note_poll, poll_until, wait_for_status,
}

-- A failure after which no other provider is asked.
pub record IsFinal (f : ProviderFailure) : Type 0 where
  pub accepted : f.order_accepted ≡ true
  pub no_fallback : f.fallback_eligible ≡ false

pub classify_profeex_failure-IsFinal :
    (code : String) (task_id : Option String) → IsFinal (classify_profeex_failure code task_id true)
unfolding classify_profeex_failure
classify_profeex_failure-IsFinal code task_id = record { accepted = refl; no_fallback = refl }

order_error_from_order-IsFinal :
    (order : Body) (task_id : String) → IsFinal (order_error_from_order order (some task_id))
unfolding order_error_from_order
order_error_from_order-IsFinal order task_id = classify_profeex_failure-IsFinal _ (some task_id)

-- The clock goes on while a request is made, and does not go back in a pause.
pub record IsClocked {W : Type 0} (o : Outside W) : Type 0 where
  pub poll_takes_time :
      (task_id : String) (timeout : ℕ) (w : W) → o.now w < o.now (o.poll task_id timeout w).1
  pub sleep_forward : (ticks : ℕ) (w : W) → o.now w ≤ o.now (o.sleep ticks w)

-- The status of the order is one of success.
pub record IsSuccess (statuses : Statuses) (order : Body) : Type 0 where
  pub status : String
  pub same : order.status ≡ text status
  pub success : contains status statuses.success ≡ true

judge_status-text :
    (statuses : Statuses) (entry : Entry)
    → judge_status statuses entry ≡ succeeded
    → (status : String) × ((entry ≡ text status) × (contains status statuses.success ≡ true))
unfolding judge_status
judge_status-text statuses missing judged = absurd (ground (arith, judged))
judge_status-text statuses other judged = absurd (ground (arith, judged))
judge_status-text statuses nested judged = absurd (ground (arith, judged))
judge_status-text statuses (text status) judged =
    elim (Bool-cases (contains status statuses.success)) [
      | inl success ↦ (status, (refl, success))
      | inr no_success ↦ absurd (ground (arith, judged, no_success))
    ]

-- How a wait ends: with the order, or with a failure that is final.
unfoldable pub IsEnd : Statuses → Waited → Type 0
IsEnd statuses (settled order) = IsSuccess statuses order
IsEnd statuses (broken f) = IsFinal f
IsEnd statuses out_of_fuel = ⊥

module _ {W : Type 0} (o : Outside W) (purchases : List (Purchase × Reply)) where
  pub record IsKept (p : Provider W) : Type 0 where
    pub same : p.purchases ≡ purchases

  record IsBefore (deadline fuel : ℕ) (p : Provider W) : Type 0 where
    kept : IsKept p
    enough : deadline - o.now p.outside < fuel

  record IsAt (deadline fuel remaining : ℕ) (p : Provider W) : Type 0 where
    before : IsBefore deadline fuel p
    left : remaining ≡ deadline - o.now p.outside

  unfoldable pub IsWaited : Statuses → Waited → Provider W → Type 0
  IsWaited statuses w p = IsEnd statuses w × IsKept p

  module _ {E : Exc → Provider W → Type 0} where
    pub set_last_failure-IsKept :
        (f : Option ProviderFailure) → Contract IsKept (set_last_failure f) (λ _. IsKept) E
    set_last_failure-IsKept f = Contract-modify _ (λ p kept. record { same = kept.same })

    time_left-IsAt :
        (deadline fuel : ℕ)
        → Contract (IsBefore deadline fuel) (time_left o deadline) (IsAt deadline fuel) E
    unfolding time_left After
    time_left-IsAt deadline fuel = record { at = λ p h. record { before = h; left = refl } }

    module _ (clocked : IsClocked o)
        (crash : (p : Provider W) → IsKept p → E unhashable_status p) where
      rest-IsBefore :
          (deadline fuel remaining ticks : ℕ)
          → Contract (IsAt deadline fuel remaining) (rest o ticks) (λ _. IsBefore deadline fuel) E
      rest-IsBefore deadline fuel remaining ticks =
          Contract-modify (λ p. record p { outside = o.sleep ticks p.outside })
            (λ p h.
              let forward = clocked.sleep_forward ticks p.outside in
              let enough = h.before.enough in
              record {
                kept = record { same = h.before.kept.same };
                enough = omega (arith, forward, enough);
              })

      may_poll-IsAt :
          (settings : Settings) (deadline fuel : ℕ) (polled : Bool)
          → Contract
              (IsBefore deadline fuel)
              (may_poll o settings deadline polled)
              (IsAt deadline fuel)
              E
      unfolding may_poll
      may_poll-IsAt settings deadline fuel polled =
          Contract-bind _ _ (time_left-IsAt deadline fuel) (λ remaining.
            Contract-if (remaining == 0) _ _
              (λ now.
                Contract-pure 0
                  (λ p h. record { before = h.before; left = ground (arith, now, h.left) }))
              (λ _.
                Contract-if {P = IsAt deadline fuel remaining} polled _ _
                  (λ _.
                    Contract-bind {P = IsAt deadline fuel remaining} _ _
                      (rest-IsBefore deadline fuel remaining (min settings.poll_interval remaining))
                      (λ _. time_left-IsAt deadline fuel))
                  (λ _. Contract-pure remaining (λ p h. h))))

      keep_order-IsBefore :
          (deadline fuel : ℕ) (task_id : String) (order : Body)
          → Contract
              (IsBefore deadline fuel)
              (set_failure "POLL_TEMPORARY_ERROR" (some task_id) true >> pure order)
              (λ _. IsBefore deadline fuel)
              E
      keep_order-IsBefore deadline fuel task_id order =
          Contract-then _ _
            (Contract-modify _
              (λ p h. record { kept = record { same = h.kept.same }; enough = h.enough }))
            (Contract-pure order (λ p h. h))

      note_poll-IsBefore :
          (deadline fuel : ℕ) (task_id : String) (order : Body) (reply : Reply)
          → Contract
              (IsBefore deadline fuel)
              (note_poll task_id order reply)
              (λ _. IsBefore deadline fuel)
              E
      unfolding note_poll
      note_poll-IsBefore deadline fuel task_id order (failed e) =
          keep_order-IsBefore deadline fuel task_id order
      note_poll-IsBefore deadline fuel task_id order (response r) =
          Contract-if (r.status_code == 200) _ _
            (λ _.
              Contract-option r.body _ _ (keep_order-IsBefore deadline fuel task_id order)
                (λ order'. Contract-pure order' (λ p h. h)))
            (λ _. keep_order-IsBefore deadline fuel task_id order)

      poll-IsBefore :
          (deadline fuel remaining timeout : ℕ) (task_id : String)
          → (remaining == 0) ≡ false
          → Contract
              (IsAt deadline (suc fuel) remaining)
              (consult (o.poll task_id timeout))
              (λ _. IsBefore deadline fuel)
              E
      unfolding consult After
      poll-IsBefore deadline fuel remaining timeout task_id more = record {
        at = λ p h. record {
          kept = record { same = h.before.kept.same };
          enough =
              let takes = clocked.poll_takes_time task_id timeout p.outside in
              let enough = h.before.enough in
              let left = h.left in ground (arith, takes, enough, left, more);
        };
      }

      settle-IsWaited :
          (statuses : Statuses) (deadline fuel : ℕ) (order : Body)
          → IsSuccess statuses order
          → Contract
              (IsBefore deadline fuel)
              (set_last_failure none >> pure (settled order))
              (IsWaited statuses)
              E
      unfolding IsWaited IsEnd
      settle-IsWaited statuses deadline fuel order success =
          Contract-then _ _ (Contract-modify _ (λ p h. record { same = h.kept.same }))
            (Contract-pure (settled order) (λ p h. (success, h)))

      break-IsWaited :
          (statuses : Statuses) (deadline fuel : ℕ) (f : ProviderFailure)
          → IsFinal f
          → Contract (IsBefore deadline fuel) (pure (broken f)) (IsWaited statuses) E
      unfolding IsWaited IsEnd
      break-IsWaited statuses deadline fuel f final =
          Contract-pure (broken f) (λ p h. (final, h.kept))

      pending-IsWaited :
          (settings : Settings) (statuses : Statuses) (deadline : ℕ) (task_id : String) (fuel : ℕ)
          (order : Body) (polled : Bool)
          → ((order' : Body)
              → Contract
                  (IsBefore deadline fuel)
                  (poll_until o fuel settings statuses deadline task_id order' true)
                  (IsWaited statuses)
                  E)
          → Contract
              (IsBefore deadline (suc fuel))
              (may_poll o settings deadline polled >>= λ remaining.
                if remaining == 0
                then pure (broken (classify_profeex_failure "ORDER_TIMEOUT" (some task_id) true))
                else (consult (o.poll task_id (min o.request_timeout remaining)) >>= λ reply.
                    note_poll task_id order reply >>= λ order'.
                    poll_until o fuel settings statuses deadline task_id order' true))
              (IsWaited statuses)
              E
      pending-IsWaited settings statuses deadline task_id fuel order polled again =
          Contract-bind _ _ (may_poll-IsAt settings deadline (suc fuel) polled) (λ remaining.
            Contract-if (remaining == 0) _ _
              (λ _.
                Contract-weaken _
                  (break-IsWaited statuses deadline (suc fuel) _
                    (classify_profeex_failure-IsFinal "ORDER_TIMEOUT" (some task_id)))
                  (λ p h. h.before) (λ w p h. h) (λ e p h. h))
              (λ more.
                Contract-bind _ _
                  (poll-IsBefore deadline fuel remaining (min o.request_timeout remaining) task_id
                    more)
                  (λ reply.
                    Contract-bind _ _ (note_poll-IsBefore deadline fuel task_id order reply)
                      again)))

      poll_until-IsWaited :
          (settings : Settings) (statuses : Statuses) (deadline : ℕ) (task_id : String) (fuel : ℕ)
          (order : Body) (polled : Bool)
          → Contract
              (IsBefore deadline fuel)
              (poll_until o fuel settings statuses deadline task_id order polled)
              (IsWaited statuses)
              E
      unfolding poll_until
      poll_until-IsWaited settings statuses deadline task_id zero order polled =
          Contract-pure out_of_fuel (λ p h. let enough = h.enough in absurd (omega (arith, enough)))
      poll_until-IsWaited settings statuses deadline task_id (suc fuel) order polled =
          by_judgement
            (pending-IsWaited settings statuses deadline task_id fuel order polled
              (λ order'. poll_until-IsWaited settings statuses deadline task_id fuel order' true))
            (judge_status statuses order.status) refl
        where
          by_judgement :
              {pending : P W Waited}
              → Contract (IsBefore deadline (suc fuel)) pending (IsWaited statuses) E
              → (j : Judgement) → judge_status statuses order.status ≡ j
              → Contract
                  (IsBefore deadline (suc fuel))
                  (elim j [
                    | succeeded ↦ set_last_failure none >> pure (settled order)
                    | has_failed ↦ pure (broken (order_error_from_order order (some task_id)))
                    | unexpected ↦
                        pure (broken (classify_profeex_failure "UNKNOWN_ERROR" (some task_id) true))
                    | type_error ↦ raise unhashable_status
                    | is_pending ↦ pending
                  ])
                  (IsWaited statuses)
                  E
          by_judgement again succeeded judged =
              let (status, (same, success)) = judge_status-text statuses order.status judged in
              settle-IsWaited statuses deadline (suc fuel) order
                (record { status = status; same = same; success = success })
          by_judgement again has_failed judged =
              break-IsWaited statuses deadline (suc fuel) _
                (order_error_from_order-IsFinal order task_id)
          by_judgement again unexpected judged =
              break-IsWaited statuses deadline (suc fuel) _
                (classify_profeex_failure-IsFinal "UNKNOWN_ERROR" (some task_id))
          by_judgement again type_error judged =
              Contract-raise unhashable_status (λ p h. crash p h.kept)
          by_judgement again is_pending judged = again

  -- A wait for an order ends, where the clock goes on; a failure that it ends with says that an
  -- order was accepted, and lets no other provider be asked, and an exception is that of a status
  -- that is an array or an object.
  pub wait_for_status-IsWaited :
      {E : Exc → Provider W → Type 0}
      → IsClocked o
      → ((p : Provider W) → IsKept p → E unhashable_status p)
      → (settings : Settings) (statuses : Statuses) (task_id : String) (order : Body)
      → Contract IsKept (wait_for_status o settings statuses task_id order) (IsWaited statuses) E
  unfolding wait_for_status
  wait_for_status-IsWaited clocked crash settings statuses task_id order =
      Contract-bind _ _ (Contract-gets (λ p. o.now p.outside + settings.timeout)) (λ deadline.
        Contract-weaken _
          (poll_until-IsWaited clocked crash settings statuses deadline task_id
            (suc settings.timeout) order false)
          (λ p h. let same = h.0 in record { kept = h.1; enough = omega (arith, same) })
          (λ w p h. h) (λ e p h. h))

-- Where the clock goes on while a request is made, the polling of an order comes to an end: it
-- returns the order with a status of success, or a failure that says that an order was accepted and
-- lets no other provider be asked, or it raises the TypeError of a status that is a JSON array or object.
pub wait_for_status-ends :
    {W : Type 0} (o : Outside W)
    → IsClocked o
    → (settings : Settings) (statuses : Statuses) (task_id : String) (order : Body) (p : Provider W)
    → After
        (λ w _. IsEnd statuses w)
        (λ e _. e ≡ unhashable_status)
        (wait_for_status o settings statuses task_id order p).0
        (wait_for_status o settings statuses task_id order p).1
unfolding IsWaited
wait_for_status-ends o clocked settings statuses task_id order p =
    (Contract-weaken _
        (wait_for_status-IsWaited o p.purchases {E = λ e _. e ≡ unhashable_status} clocked
          (λ p' kept. refl) settings statuses task_id order)
        (λ p' h. h) (λ w p' h. h.0) (λ e p' h. h)).at
      p (record { same = refl })
