-- ===== src/Servers.antt =====
-- The choice of a full node: app/connection_manager.py.
pub mod Choice
pub mod Best
pub mod Latest
mod Tests
