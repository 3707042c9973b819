-- ===== src/Scanner.antt =====
-- The block scanner: app/block_scanner.py, and what it calls of app/sweep_guard.py and
-- app/custom/aml.
pub mod Range
pub mod Events
pub mod Scan
pub mod Progress
pub mod Kept
pub mod Notices
mod Tests
