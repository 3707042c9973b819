-- ===== src/Confirmation.antt =====
-- Whether a payout is confirmed on the chain: `parse_tx` of app/block_scanner.py and
-- `refresh_tron_usdt_confirmation` of app/payout_status.py.
pub mod Transfers
pub mod Check
mod Verdict
mod Tests
