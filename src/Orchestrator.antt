-- ===== src/Orchestrator.antt =====
-- The loan-agent orchestrator: services/la_orchestrator, its Temporal workflows and activities.
pub mod Types
pub mod Activities
pub mod Workflow
