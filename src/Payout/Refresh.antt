-- ===== src/Payout/Refresh.antt =====
-- `_refresh_chain_status` and `status` (app/payout_execution.py): the status of a payout, which is
-- recovered if it is stale and followed on the chain.
use tron_shkeeper.Base.{
  ℕ, String, Bool, true, false, not, ◌&&◌, Option, none, some, List, [], ◌∷◌, ◌=s◌, if◌then◌else◌,
}
use tron_shkeeper.Payout.Types.{
  plain_error, State, in_unsafe_recovery_states, is_confirming, Row, Metadata, Confirmation, Exc,
  Result, ok, err,
}
use tron_shkeeper.Payout.Fields.{Field, not_created, is_cas_conflict}
use tron_shkeeper.Payout.Status.{Status}
use tron_shkeeper.Payout.World.{Env, M, pure, raise, catch, ◌>>=◌, get_row}
use tron_shkeeper.Payout.Transitions.{
  transition, report, recover_stale_execution, metadata_or_empty,
}
use tron_shkeeper.Confirmation.Transfers.{Token, Tx, TxInfo, Decoders}
use tron_shkeeper.Confirmation.Check.{
  Expected, Check, no_progress, confirming, refresh_tron_usdt_confirmation,
}

-- The chain as the client shows it at a tick: reading it fails, or gives a transaction, its info,
-- and the number of the latest block.
pub record Chain : Type 0 where
  pub decoders : Decoders
  pub tokens : List Token
  pub min_confirmations : ℕ
  pub fee_deposit_address : String
  pub get : ℕ → Option String → Result (Tx × (TxInfo × Result ℕ))

-- `expected_source_wallet_address`; the source wallet of a payout is the fee-deposit wallet
abbrev pub expected_source : Chain → Row → String
expected_source chain row =
    elim ((metadata_or_empty row.chain_check_metadata).source_wallet_address) [
      | none ↦ chain.fee_deposit_address
      | some address ↦ elim (address =s "") [ true ↦ chain.fee_deposit_address | false ↦ address ]
    ]

-- What the payout of a row promised.
abbrev pub expected_of : Chain → Row → Expected
expected_of chain row = record {
  source = expected_source chain row;
  destination = row.canonical_payload.destination;
  amount = row.canonical_payload.amount;
}

-- The check of a row, or what an exception is turned into.
unfoldable pub check_chain : Chain → Row → Result (Tx × (TxInfo × Result ℕ)) → Check
check_chain chain row (err e) = confirming none (some e.message) (no_progress 0 none e.message)
check_chain chain row (ok (tx, (info, latest))) =
    refresh_tron_usdt_confirmation chain.decoders chain.tokens chain.min_confirmations
      (expected_of chain row) tx info latest

abbrev pub confirmation_of : Check → Confirmation
confirmation_of check = record {
  transfer_match = check.transfer_match;
  confirmations = check.confirmation.confirmations;
  min_confirmations = check.confirmation.min_confirmations;
  error = check.error;
}

abbrev pub with_confirmation : Row → Check → Metadata
with_confirmation row check = record (metadata_or_empty row.chain_check_metadata) {
  confirmation = some (confirmation_of check);
}

abbrev pub txids_of : Option String → List String
txids_of none = []
txids_of (some txid) = txid ∷ []

-- The fields that are written for the state that was found.
unfoldable pub refresh_fields : Row → Check → State → List Field
refresh_fields row check State.confirmed =
    Field.chain_check_metadata (some (with_confirmation row check))
    ∷ Field.txids (txids_of row.txid)
    ∷ Field.is_reconciliation_required false
    ∷ []
refresh_fields row check State.failed_chain_terminal =
    Field.chain_check_metadata (some (with_confirmation row check))
    ∷ Field.failure_class (some "CHAIN_TERMINAL")
    ∷ Field.error_code (elim check.failure [ none ↦ none | some f ↦ some f.0 ])
    ∷ Field.error_message (elim check.failure [ none ↦ none | some f ↦ some f.1 ])
    ∷ Field.is_reconciliation_required false
    ∷ []
refresh_fields row check _ = Field.chain_check_metadata (some (with_confirmation row check)) ∷ []

-- `row["state"] not in (STATE_BROADCASTED, STATE_CONFIRMING)` is the negation of this.
abbrev pub is_followed : State → Bool
is_followed State.broadcasted = true
is_followed State.confirming = true
is_followed _ = false

module _ (env : Env) (chain : Chain) where
  -- What the check comes to; a row that stays CONFIRMING is not written.
  unfoldable pub write_check : Row → Check → M (Option Row)
  unfolding refresh_fields
  write_check row check =
      if is_confirming check.state && is_confirming row.state
      then pure (some row)
      else transition env (some row) check.state (refresh_fields row check check.state)

  -- `_refresh_chain_status` of a row that there is
  unfoldable pub refresh_chain_status : Row → M (Option Row)
  unfolding write_check check_chain
  refresh_chain_status row = if not (is_followed row.state) then pure (some row) else λ w.
      write_check row (check_chain chain row (chain.get w.tick row.txid)) w

  -- `except PayoutExecutionError as exc: if exc.code != "PAYOUT_EXECUTION_CAS_CONFLICT": raise`
  abbrev pub unless_conflict : {A : Type 0} → M A → Exc → M A
  unless_conflict m e = if is_cas_conflict e then m else raise e

  unfoldable pub refresh_or_read : String → Option Row → M (Option Row)
  unfolding refresh_chain_status
  refresh_or_read id none = raise (plain_error "'NoneType' object is not subscriptable")
  refresh_or_read id (some row) =
      catch (refresh_chain_status row) (unless_conflict (get_row env id))

  unfoldable pub recover_and_read : String → Row → M (Option Row)
  recover_and_read id row =
      if in_unsafe_recovery_states row.state
      then (catch (recover_stale_execution env id >>= (λ _. pure tt)) (unless_conflict (pure tt))
          >>= λ _. get_row env id)
      else pure (some row)

  unfoldable pub status_row : String → String → Option Row → M Status
  unfolding recover_and_read refresh_or_read
  status_row id consumer none = raise not_created
  status_row id consumer (some row) =
      if not (row.consumer =s consumer)
      then raise not_created
      else ((recover_and_read id row >>= refresh_or_read id) >>= report env)

  -- `status`
  unfoldable pub status : String → String → M Status
  unfolding status_row
  status id consumer = get_row env id >>= status_row id consumer
