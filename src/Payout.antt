-- ===== src/Payout.antt =====
-- The payout executions of the TRON USDT rail, app/payout_execution.py.
pub mod Types
pub mod World
pub mod Fields
pub mod Status
pub mod Transitions
pub mod Wallet
pub mod Execute
pub mod Refresh
pub mod Submit
pub mod Resubmit
pub mod Code
pub mod Samples
mod Tests
mod Rows
pub mod Ensures
pub mod Holds
pub mod Known
pub mod Replace
pub mod Statements
pub mod Legal
pub mod Safety
pub mod Guarantees
pub mod Evolution
