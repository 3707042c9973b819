-- ===== src/Payout/Safety/Paying.antt =====
-- Proofs about `execute`.
use tron_shkeeper.Base.{ℕ, String, ◌≡◌, false, not, ◌||◌, if◌then◌else◌, Option, none, some, truthy}
use tron_shkeeper.Payout.Types.{Row, Exc, in_unsafe_recovery_states, is_received, is_validated}
use tron_shkeeper.Payout.Fields.{is_cas_conflict}
use tron_shkeeper.Payout.Status.{Status}
use tron_shkeeper.Payout.World.{Shared, Env, M, pure, subscript}
use tron_shkeeper.Payout.Wallet.{Balance, no_attribute, unreadable, amount, Tools, Wallet}
use tron_shkeeper.Payout.Transitions.{mark_resource_reserved}
use tron_shkeeper.Payout.Execute.{
  Progress, returned, proceed, same_attempt, check_balance, ensure_sufficient_wallet_balance,
  claim_row, validate_received, start_attempt, claim, claim_failed, reserve, sign_and_broadcast,
  pay_row, pay, after_claim, execute_row, execute,
}
use tron_shkeeper.Payout.Evolution.{IsSound, IsFair}
use tron_shkeeper.Payout.Holds.{
  Any, Always, Holds, Holds-pure, Holds-raise, Holds-if, Holds-bind, Holds-weaken, Holds-subscript,
  Holds-at_tick, Holds-given, Holds-guard, Holds-raise_if, Holds-catch, Holds-uuid4, Holds-utcnow,
}
use tron_shkeeper.Payout.Statements.{Knows}
use tron_shkeeper.Payout.Legal.{validated-IsLegal, signing-IsLegal, reserved-IsLegal}
use tron_shkeeper.Payout.Safety.Calls.{Read, get_row-Holds, rewrite-Holds, Knows-IsStable}
use tron_shkeeper.Payout.Safety.Recovery.{Read-Holds, recover-Holds, mark_failed-Holds}
use tron_shkeeper.Payout.Safety.Sending.{broadcast_signed-Holds}

-- A row of the execution that is sound and known of.
abbrev Held : Row → Shared → Type 0
Held row s = Knows s row

module _ {env : Env} (fair : IsFair env) (tools : Tools) where
  validate_received-Holds :
      (row : Row)
      → IsSound row
      → Holds env.sha256_hex (λ s. Knows s row) (validate_received env row) Held
  unfolding validate_received
  validate_received-Holds row sound =
      Holds-if (is_received row.state) _ _
        (λ h.
          Holds-weaken _ (rewrite-Holds fair _ _ row (validated-IsLegal row sound h)) (λ s k. k)
            (λ r s w. w.known))
        (λ _. Holds-pure row (λ s k. k))

  -- A row that is known of is sound.
  held :
      {A : Type 0} {m : M A} {Q : A → Shared → Type 0} (row : Row)
      → (IsSound row → Holds env.sha256_hex (Held row) m Q)
      → Holds env.sha256_hex (Held row) m Q
  held row h = record { at = λ w safe k. (h k.sound).at w safe k }

  start_attempt-Holds :
      (row : Row) → Holds env.sha256_hex (Held row) (start_attempt env tools row) Held
  unfolding start_attempt
  start_attempt-Holds row = held row λ sound.
      Holds-if (is_validated row.state) _ _
        (λ _. Holds-bind _ _ (Holds-uuid4 env) λ attempt. Holds-bind _ _ (Holds-utcnow env) λ now.
          Holds-weaken _ (rewrite-Holds fair _ _ row (signing-IsLegal row sound _ _ _)) (λ s k. k)
            (λ r s w. w.known))
        (λ _. Holds-pure row (λ s k. k))

  -- What a claim hands on.
  Handed : Progress → Shared → Type 0
  Handed (returned status) s = Unit
  Handed (proceed row) s = Knows s row

  claim_row-Holds :
      (row : Row)
      → IsSound row
      → Holds env.sha256_hex (λ s. Knows s row) (claim_row env tools row) Handed
  unfolding claim_row Handed
  claim_row-Holds row sound = Holds-bind _ _ (validate_received-Holds row sound) λ validated.
      Holds-bind _ _ (start_attempt-Holds validated)
        λ claimed. Holds-pure (proceed claimed) (λ s k. k)

  claim_found-Holds :
      (row : Row) (status : Status)
      → IsSound row
      → Holds env.sha256_hex
          (λ s. Knows s row)
          (if in_unsafe_recovery_states row.state
            then pure (returned status)
            else claim_row env tools row)
          Handed
  unfolding Handed
  claim_found-Holds row status sound =
      Holds-if (in_unsafe_recovery_states row.state) _ _ (λ _. Holds-pure _ (λ s k. tt))
        (λ _. claim_row-Holds row sound)

  -- A row that was just read, or none.
  subscript-Holds :
      {id : String} (o : Option Row) → Holds env.sha256_hex (Read id o) (subscript o) Held
  subscript-Holds o = Holds-subscript o (λ r e s read. (read.known r e).0)

  claim-Holds :
      (row : Row)
      → IsSound row
      → Holds env.sha256_hex (λ s. Knows s row) (claim env tools row) Handed
  unfolding claim
  claim-Holds row sound =
      Holds-if (in_unsafe_recovery_states row.state) _ _
        (λ _.
          Holds-bind _ _
            (Holds-weaken _ (recover-Holds fair row.execution_id) (λ s k. tt) (λ a s _. tt))
            λ status. Holds-bind _ _ (get_row-Holds fair row.execution_id) λ fresh.
              Holds-bind _ _ (subscript-Holds fresh)
                (λ row'. held row' (claim_found-Holds row' status)))
        (λ _. claim_row-Holds row sound)

  claim_failed-Holds :
      (id : String) (exc : Exc) → Holds env.sha256_hex Always (claim_failed env id exc) Handed
  unfolding claim_failed Handed
  claim_failed-Holds id exc =
      Holds-if (is_cas_conflict exc) _ _
        (λ _.
          Holds-bind _ _ (get_row-Holds fair id)
            λ fresh. Holds-bind _ _ (subscript-Holds fresh) (λ row. Holds-pure _ (λ s k. tt)))
        (λ _. Holds-raise _)

  check_balance-Holds :
      {P : Shared → Type 0} (b : Balance) (needed : ℕ)
      → Holds env.sha256_hex P (check_balance b needed) (λ _. P)
  unfolding check_balance
  check_balance-Holds no_attribute needed = Holds-pure _ (λ s p. p)
  check_balance-Holds (unreadable e) needed = Holds-raise _
  check_balance-Holds (amount b) needed = Holds-guard _ _

  balance-Holds :
      {P : Shared → Type 0} (wallet : Wallet) (needed : ℕ)
      → Holds env.sha256_hex P (ensure_sufficient_wallet_balance wallet needed) (λ _. P)
  unfolding ensure_sufficient_wallet_balance
  balance-Holds wallet needed = record {
    at = λ w safe p. (check_balance-Holds (wallet.balance w.tick) needed).at w safe p;
  }

  reserve-Holds : (row : Row) → Holds env.sha256_hex (Held row) (reserve env row) Held
  unfolding reserve mark_resource_reserved
  reserve-Holds row = held row λ sound.
      Holds-if (truthy row.resource_reservation_id) _ _ (λ _. Holds-pure row (λ s k. k))
        λ _.
          Holds-weaken _ (rewrite-Holds fair _ _ row (reserved-IsLegal row sound _)) (λ s k. k)
            (λ r s w. w.known)

  sign-Holds :
      (claimed row : Row)
      → truthy row.signed_raw_tx_hash ≡ false
      → Holds env.sha256_hex (Held row) (sign_and_broadcast env tools claimed row) Any
  unfolding sign_and_broadcast
  sign-Holds claimed row unsigned = held row λ sound. Holds-bind _ _ (Holds-at_tick _) λ _.
      Holds-bind _ _ (Holds-at_tick _) λ tx. broadcast_signed-Holds fair tools row tx sound unsigned

  pay_row-Holds :
      (claimed : Row) (id : String) (o : Option Row)
      → Holds env.sha256_hex (Read id o) (pay_row env tools claimed o) Any
  unfolding pay_row
  pay_row-Holds claimed id none = Holds-raise _
  pay_row-Holds claimed id (some row) = Read-Holds fair row λ sound.
      Holds-if
        (not (in_unsafe_recovery_states row.state)
          || not (same_attempt row.attempt_id claimed.attempt_id))
        _ _ (λ _. Holds-pure _ (λ s k. tt))
        λ _. Holds-bind _ _ (balance-Holds tools.wallet claimed.canonical_payload.amount) λ _.
          Holds-bind _ _ (reserve-Holds row) λ reserved.
            Holds-bind _ _ (Holds-raise_if _ _) λ _. Holds-given (sign-Holds claimed reserved)

  pay-Holds : (claimed : Row) → Holds env.sha256_hex Always (pay env tools claimed) Any
  unfolding pay
  pay-Holds claimed = Holds-bind _ _ (Holds-at_tick _) λ _.
      Holds-bind _ _ (get_row-Holds fair claimed.execution_id)
        (pay_row-Holds claimed claimed.execution_id)

  after_claim-Holds : (p : Progress) → Holds env.sha256_hex (Handed p) (after_claim env tools p) Any
  unfolding after_claim Handed
  after_claim-Holds (returned status) = Holds-pure _ (λ s _. tt)
  after_claim-Holds (proceed row) =
      Holds-if (not (in_unsafe_recovery_states row.state)) _ _ (λ _. Holds-pure _ (λ s _. tt))
        λ _.
          Holds-weaken _
            (Holds-catch (pay env tools row) _ (record { keep = λ s s' up _. tt }) (pay-Holds row)
              (mark_failed-Holds fair row.execution_id))
            (λ s _. tt) (λ a s _. tt)

  execute_row-Holds :
      (id : String) (o : Option Row)
      → Holds env.sha256_hex (Read id o) (execute_row env tools o) Any
  unfolding execute_row
  execute_row-Holds id none = Holds-raise _
  execute_row-Holds id (some row) = Read-Holds fair row λ sound.
      Holds-bind _ _
        (Holds-catch (claim env tools row) _ (Knows-IsStable row) (claim-Holds row sound)
          (λ e. Holds-weaken _ (claim_failed-Holds row.execution_id e) (λ s k. tt) (λ a s h. h)))
        after_claim-Holds

  pub execute-Holds : (id : String) → Holds env.sha256_hex Always (execute env tools id) Any
  unfolding execute
  execute-Holds id = Holds-bind _ _ (get_row-Holds fair id) (execute_row-Holds id)
