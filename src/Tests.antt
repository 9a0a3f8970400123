-- ===== src/Tests.antt =====
-- Concrete inputs for the theorems, and tests of the definitions at them.
pub mod Access
pub mod Trust
pub mod Ops
pub mod Gst
pub mod Ocen
pub mod Signer
pub mod Ddp
pub mod Audit
pub mod Limit
pub mod Webhook
pub mod Wedge
pub mod Workflow
pub mod Gateway
pub mod Db
pub mod Callback
pub mod Compliance
pub mod Migration
pub mod Rules
