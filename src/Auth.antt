-- ===== src/Auth.antt =====
-- The authentication of payout requests: app/payout_auth.py.
pub mod Request
pub mod Replay
mod Tests
