-- ===== src/Gateway.antt =====
-- services/borrower_gateway: the service that keeps loan applications, its two backends, and the two
-- endpoints that start and signal a workflow.
pub mod Types
pub mod Memory
pub mod Idempotency
pub mod Table
pub mod Backends
pub mod Progress
pub mod Callback
pub mod Endpoints
