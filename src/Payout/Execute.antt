-- ===== src/Payout/Execute.antt =====
-- `PayoutExecutionStore.execute` (app/payout_execution.py): an execution is claimed, paid and marked.
use Prim.Native.String.{◌++◌ as ◌<>◌}
use tron_shkeeper.Base.{
  ℕ, ◌+◌, ◌*◌, String, ◌||◌, not, Bool, true, false, Option, none, some, [], ◌∷◌, ltb, ◌=s◌, truthy,
  or_else, if◌then◌else◌,
}
use tron_shkeeper.Payout.Types.{
  State, in_unsafe_recovery_states, is_received, is_validated, Row, Exc, payout_error, plain_error,
  Result, SignedTx, Evidence, BroadcastResult,
}
use tron_shkeeper.Payout.Fields.{Field, not_created, is_cas_conflict}
use tron_shkeeper.Payout.Status.{Status, row_to_status}
use tron_shkeeper.Payout.World.{
  Env, M, pure, raise, raise_if, subscript, catch, ◌>>=◌, ◌>>◌, utcnow, uuid4, get_row, record_sent,
}
use tron_shkeeper.Payout.Transitions.{
  transition, recover_stale_execution, mark_resource_reserved, mark_signed, mark_broadcasting,
  verify_broadcast_result, mark_broadcasted, mark_failed_or_reconciliation,
}
use tron_shkeeper.Payout.Wallet.{
  Balance, no_attribute, unreadable, amount, Wallet, Tools, signed_transfer_evidence,
}

-- A part of `execute` that may return to the caller early.
pub data Progress : Type 0 where
  returned : Status → Progress
  proceed : Row → Progress

-- A call of a parameter, at the present moment.
abbrev pub at_tick : {A : Type 0} → (ℕ → Result A) → M A
at_tick f w = (f w.tick, w)

-- `_ensure_sufficient_wallet_balance`, once the balance is read
unfoldable pub check_balance : Balance → ℕ → M (Unit {0})
check_balance no_attribute needed = pure tt
check_balance (unreadable e) needed = raise (
    payout_error ("Unable to read fee-deposit USDT balance: " <> e.message)
      "PAYOUT_BALANCE_UNAVAILABLE" 503)
check_balance (amount balance) needed =
    raise_if (ltb balance needed) (
      payout_error "Fee-deposit wallet does not have enough USDT for payout" "INSUFFICIENT_USDT"
        409)

unfoldable pub ensure_sufficient_wallet_balance : Wallet → ℕ → M (Unit {0})
unfolding check_balance
ensure_sufficient_wallet_balance wallet needed w = check_balance (wallet.balance w.tick) needed w

-- `evidence.setdefault("chain_check_metadata", {})["source_wallet_address"] = …`
unfoldable pub with_source_address : Option String → Evidence → Evidence
with_source_address address evidence =
    if truthy address
    then record evidence {
      chain_check_metadata = record (evidence.chain_check_metadata) {
        source_wallet_address = address;
      };
    }
    else evidence

abbrev pub same_attempt : Option String → Option String → Bool
same_attempt none none = true
same_attempt (some a) (some b) = a =s b
same_attempt _ _ = false

-- A value that may be `None`, in a formatted string
abbrev pub show_optional : Option String → String
show_optional none = "None"
show_optional (some s) = s

-- The broadcast itself; it counts as sent whatever the network answers.
unfoldable pub broadcast : Tools → String → SignedTx → M BroadcastResult
broadcast tools id tx =
    record_sent id tx >> at_tick (λ t. tools.wallet.broadcast_signed_transfer t tx)

module _ (env : Env) where
  -- A validated row gets a lease and an attempt; any other is left alone.
  unfoldable pub start_attempt : Tools → Row → M Row
  start_attempt tools row =
      if is_validated row.state
      then (do
        attempt_id ← uuid4 env
        now ← utcnow env
        claimed ← transition env (some row) State.signing (
            Field.lease_owner (some (or_else tools.lease_owner "payout-execution-worker"))
            ∷ Field.lease_expires_at (some (now + env.config.lease_ttl_sec * 1_000_000))
            ∷ Field.attempt_id (some attempt_id)
            ∷ [])
        subscript claimed)
      else pure row

  -- A received row becomes validated.
  unfoldable pub validate_received : Row → M Row
  validate_received row =
      if is_received row.state
      then transition env (some row) State.validated [] >>= subscript
      else pure row

  -- The first `try` block, for a row that is in no unsafe state.
  unfoldable pub claim_row : Tools → Row → M Progress
  unfolding start_attempt validate_received
  claim_row tools row = do
    validated ← validate_received row
    claimed ← start_attempt tools validated
    pure (proceed claimed)

  -- The first `try` block.
  unfoldable pub claim : Tools → Row → M Progress
  unfolding claim_row
  claim tools row =
      if in_unsafe_recovery_states row.state
      then (do
        status ← recover_stale_execution env row.execution_id
        fresh ← get_row env row.execution_id
        row' ← subscript fresh
        if in_unsafe_recovery_states row'.state
            then pure (returned status)
            else claim_row tools row')
      else claim_row tools row

  -- Its `except` clause.
  unfoldable pub claim_failed : String → Exc → M Progress
  claim_failed id exc =
      if is_cas_conflict exc
      then (do
        fresh ← get_row env id
        row ← subscript fresh
        pure (returned (row_to_status "OK" row)))
      else raise exc

  -- The marks of a transaction that is signed, and its broadcast between them.
  unfoldable pub broadcast_signed : Tools → Row → SignedTx → M Status
  broadcast_signed tools row tx = do
    signed ← mark_signed env row (
        with_source_address tools.wallet.source_address
          (signed_transfer_evidence env.sha256_hex tx))
    broadcasting ← mark_broadcasting env signed
    result ← broadcast tools row.execution_id tx
    verified ← verify_broadcast_result env broadcasting tx.txid result
    done ← mark_broadcasted env verified tx.txid result
    row' ← subscript done
    pure (row_to_status "OK" row')

  -- Resources, signing and the broadcast.
  unfoldable pub sign_and_broadcast : Tools → Row → Row → M Status
  unfolding broadcast_signed
  sign_and_broadcast tools claimed row = do
    let destination = claimed.canonical_payload.destination
    let needed = claimed.canonical_payload.amount
    at_tick (λ t. tools.resource_ensurer t destination needed)
    tx ← at_tick (λ t.
        tools.wallet.build_signed_transfer t destination needed
          (env.config.tx_expiration_cap_sec * 1000))
    broadcast_signed tools row tx

  -- `if not row["resource_reservation_id"]`
  unfoldable pub reserve : Row → M Row
  reserve row =
      if truthy row.resource_reservation_id
      then pure row
      else mark_resource_reserved env row
          ("resource:" <> row.execution_id <> ":" <> show_optional row.attempt_id)
        >>= subscript

  -- The body of `with lock:` for the row that is read under the lock.
  unfoldable pub pay_row : Tools → Row → Option Row → M Status
  unfolding sign_and_broadcast
  pay_row tools claimed none = raise not_created
  pay_row tools claimed (some row) =
      if not (in_unsafe_recovery_states row.state)
        || not (same_attempt row.attempt_id claimed.attempt_id)
      then pure (row_to_status "OK" row)
      else do
        ensure_sufficient_wallet_balance tools.wallet claimed.canonical_payload.amount
        reserved ← reserve row
        raise_if (truthy reserved.signed_raw_tx_hash) (
            plain_error
              "Signed transaction evidence exists but signed transaction artifact is not available in worker memory")
        sign_and_broadcast tools claimed reserved

  -- The second `try` block, for a claimed row.
  unfoldable pub pay : Tools → Row → M Status
  unfolding pay_row
  pay tools claimed = do
    at_tick tools.acquire
    row ← get_row env claimed.execution_id
    pay_row tools claimed row

  -- What `execute` does once the row is claimed.
  unfoldable pub after_claim : Tools → Progress → M Status
  unfolding pay
  after_claim tools (returned status) = pure status
  after_claim tools (proceed row) =
      if not (in_unsafe_recovery_states row.state)
      then pure (row_to_status "OK" row)
      else catch (pay tools row) (mark_failed_or_reconciliation env row.execution_id)

  unfoldable pub execute_row : Tools → Option Row → M Status
  unfolding after_claim claim claim_failed
  execute_row tools none = raise not_created
  execute_row tools (some row) =
      catch (claim tools row) (claim_failed row.execution_id) >>= after_claim tools

  -- `execute`
  unfoldable pub execute : Tools → String → M Status
  unfolding execute_row
  execute tools id = get_row env id >>= execute_row tools
