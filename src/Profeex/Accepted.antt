-- ===== src/Profeex/Accepted.antt =====
-- Proofs about what follows an accepted order of ProfeeX (app/resource_providers/profeex.py).
use tron_shkeeper.Base.{
  ◌≡◌, refl, String, Bool, true, false, Option, none, some, List, ◌==◌, arith, if◌then◌else◌, ◌=s◌,
}
use tron_shkeeper.Payout.Types.{Exc}
use tron_shkeeper.Effect.{pure, ◌>>=◌, ◌>>◌}
use tron_shkeeper.Effect.Contracts.{
  Contract, Contract-pure, Contract-raise, Contract-if, Contract-bind, Contract-then,
  Contract-modify, Contract-weaken, Contract-gets,
}
use tron_shkeeper.Profeex.Failures.{
  ProviderFailure, classify_profeex_failure, Entry, missing, other, nested, text, Body, Reply,
  response, failed,
}
use tron_shkeeper.Profeex.Client.{Settings, Purchase, Outside, Provider, P, set_failure}
use tron_shkeeper.Profeex.Orders.{
  order_statuses, Waited, settled, broken, out_of_fuel, unhashable_status, extract_task_id,
  with_status,
}
use tron_shkeeper.Profeex.Acquire.{after_recheck, judge_wait, follow_order}
use tron_shkeeper.Profeex.Waits.{
  IsFinal, classify_profeex_failure-IsFinal, IsClocked, IsEnd, IsKept, IsWaited,
  wait_for_status-IsWaited,
}

abbrev pub was_accepted : Reply → Bool
was_accepted (response r) = r.status_code == 202
was_accepted (failed e) = false

-- The failure that is noted is final.
pub record HasFinalFailure {W : Type 0} (p : Provider W) : Type 0 where
  pub failure : ProviderFailure
  pub stored : p.last_failure ≡ some failure
  pub final : IsFinal failure

module _ {W : Type 0} (o : Outside W) where
  -- The order that was accepted, where something is asked of the outside after a success.
  pub record IsFollowed (There : W → Type 0) (purchases : List (Purchase × Reply)) (b : Bool)
      (p : Provider W) : Type 0 where
    pub kept : IsKept o purchases p
    pub failed_final : b ≡ false → HasFinalFailure p
    pub there : b ≡ true → There p.outside

  -- A task was found, or the failure to find it is final.
  IsExtracted : List (Purchase × Reply) → Option String → Provider W → Type 0
  IsExtracted purchases none p = IsKept o purchases p × HasFinalFailure p
  IsExtracted purchases (some task_id) p = IsKept o purchases p

  -- A check of the node after an order.
  abbrev pub IsRecheck : (Exc → Provider W → Type 0) → (W → Type 0) → P W Bool → Type 0
  IsRecheck E There recheck =
      (purchases : List (Purchase × Reply))
      → Contract (IsKept o purchases) recheck
          (λ b p. IsKept o purchases p × (b ≡ true → There p.outside)) E

  module _ {E : Exc → Provider W → Type 0} {purchases : List (Purchase × Reply)} where
    set_failure-HasFinalFailure :
        (code : String) (task_id : Option String)
        → Contract
            (IsKept o purchases)
            (set_failure code task_id true)
            (λ _ p. IsKept o purchases p × HasFinalFailure p)
            E
    set_failure-HasFinalFailure code task_id = Contract-modify _ (λ p kept. (
      record { same = kept.same },
      record {
        failure = classify_profeex_failure code task_id true;
        stored = refl;
        final = classify_profeex_failure-IsFinal code task_id;
      },
    ))

    fail-IsFollowed :
        (There : W → Type 0) (code : String) (task_id : Option String)
        → Contract
            (IsKept o purchases)
            (set_failure code task_id true >> pure false)
            (IsFollowed There purchases)
            E
    fail-IsFollowed There code task_id =
        Contract-then _ _ (set_failure-HasFinalFailure code task_id) (
          Contract-pure false (λ p h. record {
            kept = h.0;
            failed_final = λ _. h.1;
            there = λ same. absurd (ground (arith, same));
          }))

    after_recheck-IsFollowed :
        (receiver : String) (There : W → Type 0) (task_id : String) (b : Bool)
        → Contract
            (λ p. IsKept o purchases p × (b ≡ true → There p.outside))
            (after_recheck o receiver task_id b)
            (IsFollowed There purchases)
            E
    unfolding after_recheck
    after_recheck-IsFollowed receiver There task_id true =
        Contract-then {Q = λ p. IsKept o purchases p × There p.outside} _ _
          (Contract-modify _ (λ p h. (record { same = h.0.same }, h.1 refl)))
          (Contract-pure true (λ p h. record {
            kept = h.0;
            failed_final = λ same. absurd (ground (arith, same));
            there = λ _. h.1;
          }))
    after_recheck-IsFollowed receiver There task_id false =
        Contract-bind _ _ (Contract-gets _) (λ unread.
          Contract-then {Q = λ p. IsKept o purchases p × HasFinalFailure p} _ _
            (Contract-if unread _ _
              (λ _.
                Contract-weaken _
                  (set_failure-HasFinalFailure "RESOURCE_READ_FAILED" (some task_id)) (λ p h. h.1.0)
                  (λ a p h. h) (λ e p h. h))
              (λ _.
                Contract-weaken _
                  (set_failure-HasFinalFailure "RESOURCE_RECHECK_FAILED" (some task_id))
                  (λ p h. h.1.0) (λ a p h. h) (λ e p h. h)))
            (Contract-pure false (λ p h. record {
              kept = h.0;
              failed_final = λ _. h.1;
              there = λ same. absurd (ground (arith, same));
            })))

    judge_wait-IsFollowed :
        (receiver : String) (There : W → Type 0) (m : P W Bool) (w : Waited)
        → Contract (IsKept o purchases) m (IsFollowed There purchases) E
        → Contract
            (IsWaited o purchases order_statuses w)
            (judge_wait o receiver m w)
            (IsFollowed There purchases)
            E
    unfolding judge_wait IsWaited IsEnd
    judge_wait-IsFollowed receiver There m (settled order) h =
        Contract-weaken m h (λ p h. h.1) (λ a p h. h) (λ e p h. h)
    judge_wait-IsFollowed receiver There m (broken f) h =
        Contract-then {Q = λ p. IsKept o purchases p × HasFinalFailure p} _ _
          (Contract-modify _ (λ p h.
            (record { same = h.1.same }, record { failure = f; stored = refl; final = h.0 })))
          (Contract-pure false (λ p h. record {
            kept = h.0;
            failed_final = λ _. h.1;
            there = λ same. absurd (ground (arith, same));
          }))
    judge_wait-IsFollowed receiver There m out_of_fuel h = Contract-raise _ (λ p h. absurd (h.0))

    no_task_id-IsExtracted :
        Contract
          (IsKept o purchases)
          (set_failure "ACCEPTED_ORDER_WITHOUT_TASK_ID" none true >> pure none)
          (IsExtracted purchases)
          E
    unfolding IsExtracted
    no_task_id-IsExtracted =
        Contract-then _ _ (set_failure-HasFinalFailure "ACCEPTED_ORDER_WITHOUT_TASK_ID" none)
          (Contract-pure none (λ p h. h))

    extract_task_id-IsExtracted :
        (order : Body)
        → Contract (IsKept o purchases) (extract_task_id order) (IsExtracted purchases) E
    unfolding extract_task_id IsExtracted
    extract_task_id-IsExtracted order = by_entry order.task_id
      where
        by_entry :
            (entry : Entry)
            → Contract
                (IsKept o purchases)
                (elim entry [
                  | text task_id ↦
                      if task_id =s ""
                      then set_failure "ACCEPTED_ORDER_WITHOUT_TASK_ID" none true >> pure none
                      else pure (some task_id)
                  | _ ↦ set_failure "ACCEPTED_ORDER_WITHOUT_TASK_ID" none true >> pure none
                ])
                (IsExtracted purchases)
                E
        by_entry missing = no_task_id-IsExtracted
        by_entry other = no_task_id-IsExtracted
        by_entry nested = no_task_id-IsExtracted
        by_entry (text task_id) =
            Contract-if (task_id =s "") _ _ (λ _. no_task_id-IsExtracted)
              (λ _. Contract-pure (some task_id) (λ p h. h))

    module _ (clocked : IsClocked o) (receiver : String) (There : W → Type 0) (settings : Settings)
        (recheck : P W Bool) (rechecked : IsRecheck E There recheck)
        (crash : (p : Provider W) → IsKept o purchases p → E unhashable_status p) where
      follow_order-IsFollowed :
          (order : Body) (task : Option String)
          → Contract
              (IsExtracted purchases task)
              (follow_order o receiver settings recheck order task)
              (IsFollowed There purchases)
              E
      unfolding follow_order IsExtracted
      follow_order-IsFollowed order none = Contract-pure false (λ p h. record {
        kept = h.0;
        failed_final = λ _. h.1;
        there = λ same. absurd (ground (arith, same));
      })
      follow_order-IsFollowed order (some task_id) =
          Contract-bind _ _
            (wait_for_status-IsWaited o purchases clocked crash settings order_statuses task_id
              (with_status order))
            (λ w. judge_wait-IsFollowed receiver There _ w (
              Contract-bind _ _ (rechecked purchases)
                (after_recheck-IsFollowed receiver There task_id)))

      pub after_order-IsFollowed :
          (order : Body)
          → Contract
              (IsKept o purchases)
              (extract_task_id order >>= follow_order o receiver settings recheck order)
              (IsFollowed There purchases)
              E
      after_order-IsFollowed order =
          Contract-bind _ _ (extract_task_id-IsExtracted order) (follow_order-IsFollowed order)
