-- ===== src/Payout/Types.antt =====
-- The data of app/payout_execution.py: the states of an execution, a row of the table
-- `payout_executions` (app/schema.sql), the errors, and what a signed transaction carries.
-- A time is a number of microseconds. An amount is a number of millionths of a USDT, since a
-- canonical amount has six decimals.
use tron_shkeeper.Base.{ℕ, String, Bool, true, false, Option, none, some, List}

-- The constants STATE_…
pub data State : Type 0 where
  received validated signing signed broadcasting broadcasted confirming confirmed : State
  failed_pre_broadcast failed_chain_terminal reconciliation_required : State

pub State-discrete : Discrete State
State-discrete = hlevel

-- `state in UNSAFE_RECOVERY_STATES`
abbrev pub in_unsafe_recovery_states : State → Bool
in_unsafe_recovery_states State.signing = true
in_unsafe_recovery_states State.signed = true
in_unsafe_recovery_states State.broadcasting = true
in_unsafe_recovery_states _ = false

-- `state in NO_DOWNGRADE_STATES`
abbrev pub in_no_downgrade_states : State → Bool
in_no_downgrade_states State.broadcasted = true
in_no_downgrade_states State.confirming = true
in_no_downgrade_states State.confirmed = true
in_no_downgrade_states State.failed_pre_broadcast = true
in_no_downgrade_states State.failed_chain_terminal = true
in_no_downgrade_states State.reconciliation_required = true
in_no_downgrade_states _ = false

abbrev pub is_received : State → Bool
is_received State.received = true
is_received _ = false

abbrev pub is_validated : State → Bool
is_validated State.validated = true
is_validated _ = false

abbrev pub is_signing : State → Bool
is_signing State.signing = true
is_signing _ = false

abbrev pub is_confirming : State → Bool
is_confirming State.confirming = true
is_confirming _ = false

-- What `canonical_sidecar_payload` returns, and `canonical_payload_json` stores.
pub record Canonical : Type 0 where
  pub consumer : String
  pub execution_id : String
  pub external_id : String
  pub asset : String
  pub network : String
  pub amount : ℕ
  pub destination : String
  pub contract_version : String

-- What `refresh_tron_usdt_confirmation` reports under "metadata", as far as later code reads it.
pub record Confirmation : Type 0 where
  pub transfer_match : Bool
  pub confirmations : ℕ
  pub min_confirmations : ℕ
  pub error : Option String

-- The result of a broadcast: the places where a transaction id is looked for, or a value that is no
-- dict.
pub data BroadcastResult : Type 0 where
  not_dict : BroadcastResult
  dict : (txid tx_id id transaction_id broadcast_txid : Option String) → BroadcastResult

-- The column `chain_check_metadata`: a JSON object, or NULL.
pub record Metadata : Type 0 where
  pub signed_tx_json_hash : Option String
  pub source_wallet_address : Option String
  pub broadcast_txid_verified : Bool
  pub broadcast_txid_candidates : List String
  pub broadcast_result : Option BroadcastResult
  pub confirmation : Option Confirmation

pub record Row : Type 0 where
  pub execution_id : String
  pub consumer : String
  pub external_id : String
  pub request_hash : String
  pub sidecar_payload_hash : String
  pub state : State
  pub state_version : ℕ
  pub state_transition_id : String
  pub state_updated_at : ℕ
  pub lease_owner : Option String
  pub lease_expires_at : Option ℕ
  pub attempt_id : Option String
  pub source_wallet : String
  pub token_contract : String
  pub resource_reservation_id : Option String
  pub reference_block : Option String
  pub chain_id_or_network_id : String
  pub expiration_at : Option ℕ
  pub canonical_payload : Canonical
  pub signed_raw_tx_ref : Option String
  pub signed_raw_tx_hash : Option String
  pub signed_raw_tx_stored_at : Option ℕ
  pub txid : Option String
  pub broadcast_provider : Option String
  pub broadcast_attempted_at : Option ℕ
  pub chain_check_metadata : Option Metadata
  pub payout_queue : String
  pub failure_class : Option String
  pub error_code : Option String
  pub error_message : Option String
  pub is_reconciliation_required : Bool
  pub txids : List String
  pub message_hashes : List String

-- The classes of app/exceptions.py, of the ABI library and of app/usdt_resource_provisioning.py that
-- a handler names.
pub data ErrorClass : Type 0 where
  general unknown_transaction_type bad_contract_result undecodable usdt_resource : ErrorClass

-- What the code reads of an exception: whether it is a `PayoutExecutionError`, and the attributes
-- `code`, `temporary` (`none` where there is no such attribute) and `provider_order_accepted`.
pub record Exc : Type 0 where
  pub is_payout : Bool
  pub message : String
  pub code : Option String
  pub status_code : ℕ
  pub temporary : Option Bool
  pub provider_order_accepted : Bool
  pub error_class : ErrorClass

-- `PayoutExecutionError(message, code=…, status_code=…)`
abbrev pub payout_error : String → String → ℕ → Exc
payout_error message code status_code = record {
  is_payout = true;
  message = message;
  code = some code;
  status_code = status_code;
  temporary = none;
  provider_order_accepted = false;
  error_class = general;
}

-- Any other exception, such as Python's own.
abbrev pub plain_error : String → Exc
plain_error message = record {
  is_payout = false;
  message = message;
  code = none;
  status_code = 500;
  temporary = none;
  provider_order_accepted = false;
  error_class = general;
}

-- An exception of one of those classes.
abbrev pub error_of : ErrorClass → String → Exc
error_of error_class message = record (plain_error message) { error_class = error_class }

pub data Result (A : Type 0) : Type 0 where
  ok : A → Result A
  err : Exc → Result A

-- A signed transaction of the client library, as far as app/wallet.py looks into it: its `txid`, the
-- compact JSON text of `to_json()`, and three fields of its raw data.
pub record SignedTx : Type 0 where
  pub txid : String
  pub raw : String
  pub ref_block_bytes : Option String
  pub ref_block_hash : Option String
  pub expiration : Option ℕ

-- What `Wallet.signed_transfer_evidence` returns.
pub record Evidence : Type 0 where
  pub signed_raw_tx_ref : String
  pub signed_raw_tx_hash : String
  pub txid : String
  pub reference_block : Option String
  pub expiration_at : Option ℕ
  pub chain_check_metadata : Metadata
