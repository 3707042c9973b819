-- ===== src/Outbox.antt =====
-- The outbox of payout notifications, app/payout_callback_outbox.py: a table of callbacks that are
-- claimed, posted to the shop and retried.
pub mod Table
pub mod Dispatch
pub mod Claims
pub mod Failing
pub mod Batch
mod Tests
