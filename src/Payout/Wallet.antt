-- ===== src/Payout/Wallet.antt =====
-- The wallet that an execution is paid from (app/wallet.py, its transfer methods), the function that
-- provides resources, and the lock: what `PayoutExecutionStore.execute` is called with. The chain
-- client behind them is not part of the repository, so its answers are parameters, one for each
-- moment (a tick of the world); `signed_transfer_evidence` is the program's own.
use Prim.Native.String.{◌++◌ as ◌<>◌}
use tron_shkeeper.Base.{ℕ, String, ◌&&◌, true, false, Option, none, some, [], truthy}
use tron_shkeeper.Payout.Types.{Exc, Result, SignedTx, Evidence, BroadcastResult}

-- Reading `wallet.balance`: there is no such attribute, it fails, or it is an amount.
pub data Balance : Type 0 where
  no_attribute : Balance
  unreadable : Exc → Balance
  amount : ℕ → Balance

pub record Wallet : Type 0 where
  -- the address that `_source_wallet_address_from_wallet` finds
  pub source_address : Option String
  pub balance : ℕ → Balance
  -- destination, amount and expiration
  pub build_signed_transfer : ℕ → String → ℕ → ℕ → Result SignedTx
  pub broadcast_signed_transfer : ℕ → SignedTx → Result BroadcastResult

-- The arguments of `execute` that are functions. `acquire` is the entry of the lock.
pub record Tools : Type 0 where
  pub wallet : Wallet
  pub resource_ensurer : ℕ → String → ℕ → Result (Unit {0})
  pub acquire : ℕ → Result (Unit {0})
  pub lease_owner : Option String

-- `f"{ref_block_bytes}:{ref_block_hash}" if ref_block_bytes and ref_block_hash else None`
abbrev pub reference_block : Option String → Option String → Option String
reference_block none b = none
reference_block (some a) none = none
reference_block (some a) (some b) = elim (truthy (some a) && truthy (some b)) [
  | true ↦ some (a <> ":" <> b)
  | false ↦ none
]

-- `Wallet.signed_transfer_evidence`
unfoldable pub signed_transfer_evidence : (String → String) → SignedTx → Evidence
signed_transfer_evidence sha256_hex tx =
    let signed_hash = sha256_hex tx.raw in
    record {
      signed_raw_tx_ref = "not-retained:signed-tron-tx-sha256:" <> signed_hash;
      signed_raw_tx_hash = signed_hash;
      txid = tx.txid;
      reference_block = reference_block tx.ref_block_bytes tx.ref_block_hash;
      expiration_at = tx.expiration;
      chain_check_metadata = record {
        signed_tx_json_hash = some signed_hash;
        source_wallet_address = none;
        broadcast_txid_verified = false;
        broadcast_txid_candidates = [];
        broadcast_result = none;
        confirmation = none;
      };
    }
