-- ===== src/Scanner/Scan.antt =====
-- `BlockScanner.scan` (app/block_scanner.py): the transactions of a block, each transfer handled by
-- the default workflow or by the one for AML.
use tron_shkeeper.Base.{
  ℕ, String, Bool, true, false, Option, none, some, List, [], ◌∷◌, ◌&&◌, ◌||◌, not, ◌=s◌, contains,
  if◌then◌else◌,
}
use tron_shkeeper.Payout.Types.{ErrorClass, Result, ok, err, plain_error}
use tron_shkeeper.Effect.{Effect, pure, raise, ◌>>=◌, catch, modify, of_result}
use tron_shkeeper.Confirmation.Transfers.{Token, Transfer, LogEntry, Tx, TxInfo, Decoders, parse_tx}
use tron_shkeeper.Scanner.Events.{
  notified, trc20_sweep, trx_sweep, payout_queued, Work, Drain, Env, record_event, is_at_least,
  is_sweep_gate_active, is_sweep_allowed, add_transaction_to_db, queue_guarded_payout_if_allowed,
}

-- The node and the ABI library, as a scan sees them: the transactions of a block, where it has that
-- entry, and for a block the logs by transaction.
pub record Node : Type 0 where
  pub decoders : Decoders
  pub tokens : List Token
  pub download_block : ℕ → Result (Option (List Tx))
  pub download_logs : ℕ → Result (String → Option (List LogEntry))

-- The classes of exceptions after which the scan goes on with the next transaction.
abbrev pub is_skipped : ErrorClass → Bool
is_skipped ErrorClass.general = false
is_skipped ErrorClass.usdt_resource = false
is_skipped _ = true

module _ (env : Env) where
  -- `notify_shkeeper`
  unfoldable pub notify_shkeeper : String → String → Effect Work (Unit {0})
  unfolding pure raise modify ◌>>=◌
  notify_shkeeper symbol txid =
      if env.skip_notifications
      then pure tt
      else (of_result (env.notify symbol txid) >>= λ status.
          if status =s "success"
          then record_event (notified symbol txid)
          else raise (plain_error "NotificationFailed"))

  abbrev pub is_watched : String → Bool
  is_watched address = contains address env.watched

  -- A transfer to a one-time account that comes from none of the own accounts.
  abbrev pub is_foreign_deposit : Transfer → Bool
  is_foreign_deposit t =
      not (env.main_account =s t.src_addr || env.main_account =s t.dst_addr)
      && is_watched t.dst_addr
      && not (is_watched t.src_addr)

  abbrev pub is_from_main : Transfer → Bool
  is_from_main t = is_watched t.dst_addr && t.src_addr =s env.main_account

  -- What follows the notice, for a symbol whose sweeps are guarded.
  unfoldable pub handle_guarded : Drain → Transfer → Effect Work (Unit {0})
  unfolding pure ◌>>=◌ add_transaction_to_db queue_guarded_payout_if_allowed
  handle_guarded drain t =
      if is_foreign_deposit t
      then (add_transaction_to_db drain t.txid t.dst_addr t.units t.decimals t.symbol false false
          >>= λ _. queue_guarded_payout_if_allowed env t.symbol t.dst_addr t.txid >>= λ _. pure tt)
      else if is_from_main t
      then add_transaction_to_db drain t.txid t.dst_addr t.units t.decimals t.symbol true true
      else pure tt

  -- The same for another symbol.
  unfoldable pub handle_unguarded : Drain → Transfer → Effect Work (Unit {0})
  unfolding raise modify ◌>>=◌ add_transaction_to_db
  handle_unguarded drain t =
      if is_foreign_deposit t
      then (add_transaction_to_db drain t.txid t.dst_addr t.units t.decimals t.symbol false true
          >>= λ _. record_event (payout_queued t.symbol t.dst_addr t.txid))
      else if is_from_main t
      then add_transaction_to_db drain t.txid t.dst_addr t.units t.decimals t.symbol true true
      else raise (plain_error "")

  -- The customized workflow
  unfoldable pub aml_workflow : Drain → Transfer → Effect Work (Unit {0})
  unfolding pure ◌>>=◌ notify_shkeeper handle_guarded handle_unguarded
  aml_workflow drain t =
      if not (is_watched t.dst_addr)
      then pure tt
      else (notify_shkeeper t.symbol t.txid >>= λ _.
          if is_sweep_gate_active t.symbol
          then handle_guarded drain t
          else handle_unguarded drain t)

  unfoldable pub start_sweep : Transfer → Effect Work (Unit {0})
  unfolding pure modify
  start_sweep t =
      if t.is_trc20
      then if not (is_sweep_allowed env t.symbol t.dst_addr t.txid)
        then pure tt
        else if env.celery_nodelay
        then of_result (env.transfer_now t.dst_addr t.symbol t.txid)
        else record_event (trc20_sweep t.dst_addr t.symbol t.txid)
      else if is_at_least t.units t.decimals env.trx_min_transfer_threshold
      then record_event (trx_sweep t.dst_addr)
      else pure tt

  -- TRX from the main account to a one-time account
  abbrev pub is_ignored : Transfer → Bool
  is_ignored t = t.symbol =s "TRX" && t.src_addr =s env.main_account && is_watched t.dst_addr

  -- The default workflow; `parse_tx` gives only transfers of transactions with the result SUCCESS.
  unfoldable pub default_workflow : Transfer → Effect Work (Unit {0})
  unfolding pure ◌>>=◌ notify_shkeeper start_sweep
  default_workflow t =
      if is_ignored t
      then pure tt
      else if is_watched t.dst_addr
      then (notify_shkeeper t.symbol t.txid >>= λ _. start_sweep t)
      else pure tt

  unfoldable pub handle_transfer : Transfer → Effect Work (Unit {0})
  unfolding aml_workflow default_workflow
  handle_transfer t = elim (env.drain) [
    | none ↦ default_workflow t
    | some drain ↦ aml_workflow drain t
  ]

  unfoldable pub handle_transfers : List Transfer → Effect Work (Unit {0})
  unfolding pure ◌>>=◌ handle_transfer
  handle_transfers [] = pure tt
  handle_transfers (t ∷ ts) = handle_transfer t >>= λ _. handle_transfers ts

  -- What parsing gave; some exceptions are passed over.
  unfoldable pub handle_parsed : Result (List Transfer) → Effect Work (Unit {0})
  unfolding pure raise handle_transfers
  handle_parsed (ok ts) = handle_transfers ts
  handle_parsed (err e) = if is_skipped e.error_class then pure tt else raise e

  module _ (node : Node) where
    abbrev pub info_of : (String → Option (List LogEntry)) → Tx → TxInfo
    info_of logs tx = record { log = logs tx.txid; block_number = none }

    unfoldable pub handle_txs : (String → Option (List LogEntry)) → List Tx → Effect Work (Unit {0})
    unfolding pure ◌>>=◌ handle_parsed
    handle_txs logs [] = pure tt
    handle_txs logs (tx ∷ txs) =
        handle_parsed (parse_tx node.decoders node.tokens tx (info_of logs tx)) >>= λ _.
        handle_txs logs txs

    unfoldable pub handle_block : ℕ → Option (List Tx) → Effect Work Bool
    unfolding pure ◌>>=◌ handle_txs
    handle_block block_num none = pure true
    handle_block block_num (some txs) =
        of_result (node.download_logs block_num) >>= λ logs. handle_txs logs txs >>= λ _. pure true

    -- `scan`
    unfoldable pub scan : ℕ → Effect Work Bool
    unfolding pure catch ◌>>=◌ handle_block
    scan block_num =
        catch (of_result (node.download_block block_num) >>= λ txs. handle_block block_num txs)
          (λ e. pure false)
