-- ===== src/Payout/Code.antt =====
-- A name under which the tests unfold the code of an execution.
use tron_shkeeper.Base.{ℕ, strip, lower}
use tron_shkeeper.Payout.World.{
  catch, ◌>>=◌, find_row, update_row, record_sent, enqueue_execution, before_statement, get_row,
  compare_and_set,
}
use tron_shkeeper.Payout.Fields.{
  assign, assign_all, stamp, write_row, is_cas_conflict, has_unsafe_side_effect,
  is_retryable_pre_broadcast_error,
}
use tron_shkeeper.Payout.Status.{row_to_status, state_name}
use tron_shkeeper.Payout.Transitions.{
  lease_expired, normalize_txid, add_candidate, broadcast_result_txids, check_broadcast_txids,
  transition, recover_expired, report, recover_row, recover_stale_execution, mark_resource_reserved,
  mark_signed, mark_broadcasting, write_verified, verify_broadcast_result, mark_broadcasted,
  settle_failure, settle_found, mark_failed_or_reconciliation,
}
use tron_shkeeper.Payout.Wallet.{signed_transfer_evidence}
use tron_shkeeper.Payout.Execute.{
  check_balance, ensure_sufficient_wallet_balance, with_source_address, broadcast, start_attempt,
  validate_received, claim_row, claim, claim_failed, broadcast_signed, sign_and_broadcast, reserve,
  pay_row, pay, after_claim, execute_row, execute,
}

unfoldable pub payout_code : ℕ
unfolding strip lower catch ◌>>=◌ find_row update_row record_sent enqueue_execution before_statement
    get_row compare_and_set assign assign_all stamp write_row is_cas_conflict has_unsafe_side_effect
    is_retryable_pre_broadcast_error row_to_status state_name lease_expired normalize_txid
    add_candidate broadcast_result_txids check_broadcast_txids transition recover_expired report
    recover_row recover_stale_execution mark_resource_reserved mark_signed mark_broadcasting
    write_verified verify_broadcast_result mark_broadcasted settle_failure settle_found
    mark_failed_or_reconciliation signed_transfer_evidence check_balance
    ensure_sufficient_wallet_balance with_source_address broadcast start_attempt validate_received
    claim_row claim claim_failed broadcast_signed sign_and_broadcast reserve pay_row pay after_claim
    execute_row execute
payout_code = 0
