-- ===== src/Payout/Safety.antt =====
-- Proofs about the operations of app/payout_execution.py, one child module for each group of them.
pub mod Calls
pub mod Recovery
pub mod Marks
pub mod Sending
pub mod Paying
pub mod Following
