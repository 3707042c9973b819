-- ===== src/Payout/Samples.antt =====
-- Sample data for the tests and the witnesses.
use tron_shkeeper.Base.{◌*◌, String, true, false, none, some, List, [], ◌∷◌}
use tron_shkeeper.Payout.Types.{State, Canonical, Row, SignedTx, ok, dict}
use tron_shkeeper.Payout.World.{Config, Env, Shared, World}
use tron_shkeeper.Payout.Wallet.{amount, Tools}

abbrev pub config : Config
config = record {
  lease_ttl_sec = 300;
  tx_expiration_cap_sec = 600;
  auto_enqueue_enabled = true;
  preflight_checks_enabled = false;
  usdt_payout_queue = "tron-usdt-payouts";
  usdt_contract = "TR7";
  network = "main";
}

-- Nobody else is at work.
abbrev pub alone : Env
alone = record {
  config = config;
  now = λ t. t * 1_000_000;
  uuid = λ t. "uuid";
  others = λ t s. s;
  sha256_hex = λ s. String.◌∷◌ "h" s;
}

abbrev pub payload : Canonical
payload = record {
  consumer = "shop";
  execution_id = "e1";
  external_id = "x1";
  asset = "USDT";
  network = "TRON";
  amount = 5_000_000;
  destination = "TDest";
  contract_version = "usdt-payout-execution-v1";
}

abbrev pub fresh_row : Row
fresh_row = record {
  execution_id = "e1";
  consumer = "shop";
  external_id = "x1";
  request_hash = "rh";
  sidecar_payload_hash = "ph";
  state = State.received;
  state_version = 1;
  state_transition_id = "t0";
  state_updated_at = 0;
  lease_owner = none;
  lease_expires_at = none;
  attempt_id = none;
  source_wallet = "fee_deposit";
  token_contract = "TR7";
  resource_reservation_id = none;
  reference_block = none;
  chain_id_or_network_id = "main";
  expiration_at = none;
  canonical_payload = payload;
  signed_raw_tx_ref = none;
  signed_raw_tx_hash = none;
  signed_raw_tx_stored_at = none;
  txid = none;
  broadcast_provider = none;
  broadcast_attempted_at = none;
  chain_check_metadata = none;
  payout_queue = "tron-usdt-payouts";
  failure_class = none;
  error_code = none;
  error_message = none;
  is_reconciliation_required = false;
  txids = [];
  message_hashes = [];
}

abbrev pub sample_tx : SignedTx
sample_tx = record {
  txid = "AB12";
  raw = "{}";
  ref_block_bytes = none;
  ref_block_hash = none;
  expiration = none;
}

abbrev pub tools : Tools
tools = record {
  wallet = record {
    source_address = some "TFee";
    balance = λ t. amount 9_000_000;
    build_signed_transfer = λ t d a x. ok sample_tx;
    broadcast_signed_transfer = λ t tx. ok (dict (some tx.txid) none (some " ab12 ") none none);
  };
  resource_ensurer = λ t d a. ok tt;
  acquire = λ t. ok tt;
  lease_owner = none;
}

abbrev pub shared_of : List Row → Shared
shared_of rows = record { rows = rows; sent = []; queued = [] }

abbrev pub start : World
start = record { shared = shared_of (fresh_row ∷ []); tick = 0 }
