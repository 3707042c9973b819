-- ===== src/Payout/Status.antt =====
-- What the program reports of a row: `_row_to_status` of app/payout_execution.py.
use tron_shkeeper.Base.{ℕ, String, Bool, Option, List}
use tron_shkeeper.Payout.Types.{State, Canonical, Metadata, Row}

-- What `_row_to_status` reports. The keys `sidecar_…` repeat the field of the same name.
pub record Status : Type 0 where
  pub status : String
  pub execution_id : String
  pub consumer : String
  pub external_id : String
  pub canonical : Canonical
  pub request_hash : String
  pub sidecar_payload_hash : String
  pub state : State
  pub state_version : ℕ
  pub state_transition_id : String
  pub state_updated_at : ℕ
  pub source_wallet : String
  pub token_contract : String
  pub chain_id_or_network_id : String
  pub payout_queue : String
  pub lease_owner : Option String
  pub lease_expires_at : Option ℕ
  pub attempt_id : Option String
  pub resource_reservation_id : Option String
  pub reference_block : Option String
  pub expiration_at : Option ℕ
  pub signed_raw_tx_ref : Option String
  pub signed_raw_tx_hash : Option String
  pub signed_raw_tx_stored_at : Option ℕ
  pub txid : Option String
  pub broadcast_provider : Option String
  pub broadcast_attempted_at : Option ℕ
  pub chain_check_metadata : Option Metadata
  pub failure_class : Option String
  pub error_code : Option String
  pub error_message : Option String
  pub is_reconciliation_required : Bool
  pub txids : List String
  pub message_hashes : List String

unfoldable pub row_to_status : String → Row → Status
row_to_status status r = record {
  status = status;
  execution_id = r.execution_id;
  consumer = r.consumer;
  external_id = r.external_id;
  canonical = r.canonical_payload;
  request_hash = r.request_hash;
  sidecar_payload_hash = r.sidecar_payload_hash;
  state = r.state;
  state_version = r.state_version;
  state_transition_id = r.state_transition_id;
  state_updated_at = r.state_updated_at;
  source_wallet = r.source_wallet;
  token_contract = r.token_contract;
  chain_id_or_network_id = r.chain_id_or_network_id;
  payout_queue = r.payout_queue;
  lease_owner = r.lease_owner;
  lease_expires_at = r.lease_expires_at;
  attempt_id = r.attempt_id;
  resource_reservation_id = r.resource_reservation_id;
  reference_block = r.reference_block;
  expiration_at = r.expiration_at;
  signed_raw_tx_ref = r.signed_raw_tx_ref;
  signed_raw_tx_hash = r.signed_raw_tx_hash;
  signed_raw_tx_stored_at = r.signed_raw_tx_stored_at;
  txid = r.txid;
  broadcast_provider = r.broadcast_provider;
  broadcast_attempted_at = r.broadcast_attempted_at;
  chain_check_metadata = r.chain_check_metadata;
  failure_class = r.failure_class;
  error_code = r.error_code;
  error_message = r.error_message;
  is_reconciliation_required = r.is_reconciliation_required;
  txids = r.txids;
  message_hashes = r.message_hashes;
}

-- The name of a state as the database has it.
unfoldable pub state_name : State → String
state_name State.received = "RECEIVED"
state_name State.validated = "VALIDATED"
state_name State.signing = "SIGNING"
state_name State.signed = "SIGNED"
state_name State.broadcasting = "BROADCASTING"
state_name State.broadcasted = "BROADCASTED"
state_name State.confirming = "CONFIRMING"
state_name State.confirmed = "CONFIRMED"
state_name State.failed_pre_broadcast = "FAILED_PRE_BROADCAST"
state_name State.failed_chain_terminal = "FAILED_CHAIN_TERMINAL"
state_name State.reconciliation_required = "RECONCILIATION_REQUIRED"
