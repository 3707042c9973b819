-- ===== src/Spend.antt =====
-- The lock around what spends from the fee-deposit wallet: app/fee_deposit_spend_guard.py.
pub mod Guard
pub mod Balance
mod Tests
