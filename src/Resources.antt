-- ===== src/Resources.antt =====
-- The resources (energy and bandwidth) that a USDT transfer needs: app/usdt_resource_provisioning.py
-- and, for payouts, app/payout_resources.py.
pub mod Types
pub mod Estimate
pub mod Provision
pub mod Payout
mod Contracts
mod Quotes
mod Ensured
mod Orders
pub mod Preflight
mod Tests
