-- ===== src/Sandbox.antt =====
-- The sandbox package: the clients that stand in for external services, driven by environment
-- settings and by scenarios.
pub mod Scenario
pub mod Clients
pub mod Gst
pub mod Lender
pub mod Dsr
