-- ===== src/Compliance.antt =====
-- The data-protection workflows and activities of services/la_orchestrator: rights of data
-- principals, retention and breach notification, with the endpoints of
-- services/borrower_gateway/dpdp_api.py that start them. The database's answers come from `Db`, and
-- the parts of dpdp_config.yaml that are read are arguments.
pub mod Rights
pub mod Retention
pub mod Breach
pub mod Status
pub mod Consent
