-- ===== src/Profeex.antt =====
-- The provider ProfeeX of energy and bandwidth: app/resource_providers/profeex.py.
pub mod Failures
pub mod Client
pub mod Orders
pub mod Acquire
pub mod Waits
pub mod Accepted
pub mod Honest
pub mod Readings
pub mod Answers
pub mod Activate
mod Tests
