-- ===== src/Payout/Safety/Recovery.antt =====
-- Proofs about the recovery of a stale execution and the settling of a failure.
use tron_shkeeper.Base.{◌||◌, String, ◌≡◌, ◌&&◌, not, true, false, Bool, Option, none, some, refl}
use tron_shkeeper.Payout.Types.{State, in_unsafe_recovery_states, in_no_downgrade_states, Row, Exc}
use tron_shkeeper.Payout.World.{Shared, Env, M, get_row, ◌>>=◌}
use tron_shkeeper.Payout.Fields.{
  is_cas_conflict, has_unsafe_side_effect, is_retryable_pre_broadcast_error,
}
use tron_shkeeper.Payout.Transitions.{
  lease_expired, report, recover_expired, recover_row, recover_stale_execution, settle_failure,
  settle_found, retry_fields, mark_failed_or_reconciliation,
}
use tron_shkeeper.Payout.Evolution.{IsFair, IsSound}
use tron_shkeeper.Payout.Holds.{
  Any, Always, Holds, Holds-pure, Holds-raise, Holds-if, Holds-bind, Holds-utcnow,
}
use tron_shkeeper.Payout.Statements.{Knows, IsLegal}
use tron_shkeeper.Payout.Safety.Calls.{Read, get_row-Holds, transition-Any}
use tron_shkeeper.Payout.Legal.{
  reconciliation-IsLegal, recovered-IsLegal, retried-IsLegal, failed-IsLegal,
}

and_not : (a b : Bool) → (a && not b) ≡ true → b ≡ false
and_not true false h = refl
and_not true true h = cc
and_not false b h = cc

module _ {env : Env} (fair : IsFair env) where
  pub report-Holds :
      {P : Shared → Type 0} (o : Option Row) → Holds env.sha256_hex P (report env o) Any
  unfolding report ◌>>=◌
  report-Holds none = Holds-raise _
  report-Holds (some row) = Holds-pure _ (λ s p. tt)

  module _ (row : Row) where
    recover_expired-Holds :
        IsSound row → Holds env.sha256_hex (λ s. Knows s row) (recover_expired env row) Any
    unfolding recover_expired
    recover_expired-Holds sound = search (
      Holds-if,
      transition-Any fair,
      reconciliation-IsLegal row sound,
      recovered-IsLegal row sound,
    )

    recover_row-Holds :
        IsSound row → Holds env.sha256_hex (λ s. Knows s row) (recover_row env (some row)) Any
    unfolding recover_row
    recover_row-Holds sound =
        Holds-if (not (in_unsafe_recovery_states row.state)) _ _ (λ _. report-Holds (some row))
          λ _. Holds-bind _ _ (Holds-utcnow env) λ now.
            Holds-if (lease_expired row now) _ _
              (λ _. Holds-bind _ _ (recover_expired-Holds sound) report-Holds)
              (λ _. report-Holds (some row))

    -- The test that sends a row back to RECEIVED.
    retried :
        (exc : Exc)
        → (is_retryable_pre_broadcast_error exc && not (has_unsafe_side_effect row)) ≡ true
        → IsSound row
        → IsLegal State.received (retry_fields exc) row
    retried exc h sound = retried-IsLegal row sound (and_not _ _ h) exc.code (some exc.message)

    settle_failure-Holds :
        (exc : Exc)
        → IsSound row
        → Holds env.sha256_hex (λ s. Knows s row) (settle_failure env row exc) Any
    unfolding settle_failure
    settle_failure-Holds exc sound =
        Holds-if (in_no_downgrade_states row.state || is_cas_conflict exc) _ _
          (λ _. report-Holds (some row))
          λ _.
            Holds-if (is_retryable_pre_broadcast_error exc && not (has_unsafe_side_effect row)) _ _
              (λ h. Holds-bind _ _ (transition-Any fair _ _ row (retried exc h sound)) report-Holds)
              λ _.
                Holds-if (has_unsafe_side_effect row) _ _
                  (λ _.
                    Holds-bind _ _
                      (transition-Any fair _ _ row (reconciliation-IsLegal row sound _ _ _))
                      report-Holds)
                  (λ clean.
                    Holds-bind _ _
                      (transition-Any fair _ _ row (failed-IsLegal row sound clean _ _ _))
                      report-Holds)

  -- A row that was read is sound and known of.
  pub Read-Holds :
      {A : Type 0} {m : M A} {Q : A → Shared → Type 0} {id : String} (row : Row)
      → ((sound : IsSound row) → Holds env.sha256_hex (λ s. Knows s row) m Q)
      → Holds env.sha256_hex (Read id (some row)) m Q
  Read-Holds row h = record {
    at = λ w safe r. let k = (r.known row refl).0 in (h k.sound).at w safe k;
  }

  recover_found-Holds :
      (id : String) (o : Option Row) → Holds env.sha256_hex (Read id o) (recover_row env o) Any
  unfolding recover_row
  recover_found-Holds id none = Holds-raise _
  recover_found-Holds id (some row) = Read-Holds row (recover_row-Holds row)

  -- Recovery keeps the shared state safe.
  pub recover-Holds :
      (id : String) → Holds env.sha256_hex Always (recover_stale_execution env id) Any
  unfolding recover_stale_execution
  recover-Holds id =
      Holds-bind (get_row env id) (recover_row env) (get_row-Holds fair id) (recover_found-Holds id)

  settle_found-Holds :
      (id : String) (exc : Exc) (o : Option Row)
      → Holds env.sha256_hex (Read id o) (settle_found env exc o) Any
  unfolding settle_found
  settle_found-Holds id exc none = Holds-raise _
  settle_found-Holds id exc (some row) = Read-Holds row (settle_failure-Holds row exc)

  -- The handler of a failed run keeps the shared state safe.
  pub mark_failed-Holds :
      (id : String) (exc : Exc)
      → Holds env.sha256_hex Always (mark_failed_or_reconciliation env id exc) Any
  unfolding mark_failed_or_reconciliation
  mark_failed-Holds id exc =
      Holds-bind (get_row env id) (settle_found env exc) (get_row-Holds fair id)
        (settle_found-Holds id exc)
