-- ===== src/Aml.antt =====
-- The payouts of deposits that are split: app/custom/aml/functions.py and app/custom/aml/classes.py.
pub mod Split
pub mod Payouts
pub mod Exact
pub mod Counts
pub mod Once
mod Tests
