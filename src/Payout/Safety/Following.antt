-- ===== src/Payout/Safety/Following.antt =====
-- Proofs about the status of a payout, whose transaction is followed on the chain.
use tron_shkeeper.Base.{
  String, ◌≡◌, ◌⊎◌, refl, true, not, ◌&&◌, ◌=s◌, Option, none, some, truthy, arith,
}
use tron_shkeeper.Payout.Types.{State, in_unsafe_recovery_states, is_confirming, Row, Exc}
use tron_shkeeper.Payout.World.{Shared, Env, M, get_row, pure, ◌>>=◌}
use tron_shkeeper.Payout.Fields.{is_cas_conflict, write_row, not_created}
use tron_shkeeper.Payout.Transitions.{recover_stale_execution}
use tron_shkeeper.Payout.Refresh.{
  Chain, check_chain, refresh_fields, is_followed, write_check, refresh_chain_status,
  unless_conflict, refresh_or_read, recover_and_read, status_row, status,
}
use tron_shkeeper.Payout.Evolution.{IsFair, IsSound}
use tron_shkeeper.Payout.Holds.{
  Any, Always, Holds, Holds-pure, Holds-raise, Holds-if, Holds-bind, Holds-catch, Holds-weaken,
}
use tron_shkeeper.Payout.Statements.{Knows, IsLegal}
use tron_shkeeper.Payout.Safety.Calls.{Read, get_row-Holds, transition-Any, Knows-IsStable}
use tron_shkeeper.Payout.Safety.Recovery.{report-Holds, Read-Holds, recover-Holds}
use tron_shkeeper.Confirmation.Check.{
  Check, check_found, check_parsed, refresh_tron_usdt_confirmation,
}

-- The states that a check comes to.
abbrev IsVerdict : State → Type 0
IsVerdict s = (s ≡ State.confirming) ⊎ ((s ≡ State.confirmed) ⊎ (s ≡ State.failed_chain_terminal))

check_chain-IsVerdict :
    (chain : Chain) (row : Row) (r : _) → IsVerdict (check_chain chain row r).state
unfolding check_chain refresh_tron_usdt_confirmation check_parsed check_found
check_chain-IsVerdict chain row r = ground arith

followed_signed :
    (row : Row) → is_followed row.state ≡ true → IsSound row → truthy row.signed_raw_tx_hash ≡ true
followed_signed row followed sound = sound.signed_has_hash (ground arith)

check-IsLegal :
    (row : Row) (check : Check) (s : State)
    → IsVerdict s
    → is_followed row.state ≡ true
    → IsSound row
    → IsLegal s (refresh_fields row check s) row
unfolding refresh_fields write_row
check-IsLegal row check State.confirming verdict followed sound =
    let signed = followed_signed row followed sound in
    record {
      sound = λ tid time. record { signed_has_hash = λ _. signed; repeatable_is_clean = λ h. cc };
      hash_kept = λ tid time t. refl;
    }
check-IsLegal row check State.confirmed verdict followed sound =
    let signed = followed_signed row followed sound in
    record {
      sound = λ tid time. record { signed_has_hash = λ _. signed; repeatable_is_clean = λ h. cc };
      hash_kept = λ tid time t. refl;
    }
check-IsLegal row check State.failed_chain_terminal verdict followed sound =
    let signed = followed_signed row followed sound in
    record {
      sound = λ tid time. record { signed_has_hash = λ _. signed; repeatable_is_clean = λ h. cc };
      hash_kept = λ tid time t. refl;
    }
check-IsLegal row check _ verdict followed sound = ground arith

module _ {env : Env} (fair : IsFair env) (chain : Chain) where
  write_check-Holds :
      (row : Row) (check : Check)
      → IsVerdict check.state
      → is_followed row.state ≡ true
      → IsSound row
      → Holds env.sha256_hex (λ s. Knows s row) (write_check env chain row check) Any
  unfolding write_check
  write_check-Holds row check verdict followed sound =
      Holds-if (is_confirming check.state && is_confirming row.state) _ _
        (λ _. Holds-pure _ (λ s p. tt))
        (λ _.
          transition-Any fair _ _ row (check-IsLegal row check check.state verdict followed sound))

  refresh-Holds :
      (row : Row)
      → IsSound row
      → Holds env.sha256_hex (λ s. Knows s row) (refresh_chain_status env chain row) Any
  unfolding refresh_chain_status
  refresh-Holds row sound =
      Holds-if (not (is_followed row.state)) _ _ (λ _. Holds-pure _ (λ s p. tt))
        (λ followed. record {
          at = λ w safe known.
              (write_check-Holds row (check_chain chain row (chain.get w.tick row.txid))
                  (check_chain-IsVerdict chain row _) (ground arith) sound).at
                w safe known;
        })

  unless_conflict-Holds :
      {A : Type 0} {P : Shared → Type 0} (m : M A) (e : Exc)
      → Holds env.sha256_hex P m Any
      → Holds env.sha256_hex P (unless_conflict env chain m e) Any
  unless_conflict-Holds m e h = Holds-if (is_cas_conflict e) _ _ (λ _. h) (λ _. Holds-raise e)

  get_row-Read :
      {P : Shared → Type 0} (id : String) → Holds env.sha256_hex P (get_row env id) (Read id)
  get_row-Read id = Holds-weaken _ (get_row-Holds fair id) (λ s p. tt) (λ o s p. p)

  refresh_or_read-Holds :
      (id : String) (o : Option Row)
      → Holds env.sha256_hex (Read id o) (refresh_or_read env chain id o) Any
  unfolding refresh_or_read
  refresh_or_read-Holds id none = Holds-raise _
  refresh_or_read-Holds id (some row) = Read-Holds fair row (λ sound.
      Holds-catch (refresh_chain_status env chain row) _ (Knows-IsStable row)
        (refresh-Holds row sound)
        (λ e.
          unless_conflict-Holds (get_row env id) e
            (Holds-weaken _ (get_row-Read id) (λ s p. p) (λ o s p. tt))))

  recover_and_read-Holds :
      (id : String) (row : Row)
      → Holds env.sha256_hex (Read id (some row)) (recover_and_read env chain id row) (Read id)
  unfolding recover_and_read
  recover_and_read-Holds id row =
      Holds-if (in_unsafe_recovery_states row.state) _ _
        (λ _.
          Holds-bind _ _
            (Holds-weaken _
              (Holds-catch (recover_stale_execution env id >>= (λ _. pure tt)) _
                (record { keep = λ s s' up k. tt })
                (Holds-bind _ _ (recover-Holds fair id) (λ _. Holds-pure tt (λ s p. tt)))
                (λ e. unless_conflict-Holds (pure tt) e (Holds-pure tt (λ s p. tt))))
              (λ s p. tt) (λ a s p. p))
            (λ _. get_row-Read id))
        (λ _. Holds-pure _ (λ s p. p))

  status_row-Holds :
      (id consumer : String) (o : Option Row)
      → Holds env.sha256_hex (Read id o) (status_row env chain id consumer o) Any
  unfolding status_row
  status_row-Holds id consumer none = Holds-raise _
  status_row-Holds id consumer (some row) =
      Holds-if (not (row.consumer =s consumer)) _ _ (λ _. Holds-raise not_created)
        (λ _.
          Holds-bind _ _ (Holds-bind _ _ (recover_and_read-Holds id row) (refresh_or_read-Holds id))
            (report-Holds fair))

  -- Asking for the status keeps the shared state safe.
  pub status-Holds :
      (id consumer : String) → Holds env.sha256_hex Always (status env chain id consumer) Any
  unfolding status
  status-Holds id consumer =
      Holds-bind (get_row env id) (status_row env chain id consumer) (get_row-Holds fair id)
        (status_row-Holds id consumer)
