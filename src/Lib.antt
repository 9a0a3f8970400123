-- ===== src/Lib.antt =====
-- The lending platform: a loan application comes in at the borrower gateway, a Temporal workflow
-- takes it through the decision gates D0 to D3 and to the lenders, and the data protection (DPDP)
-- parts answer data subjects, enforce retention and detect breaches over the same tables.
--
-- Parts and files:
-- - Rules: `ZenDecisionEngine` of libs/zen_rules/engine.py. Rules/Content is about its hashes.
-- - Integrations: the records and client interfaces of libs/integrations/protocols.py and the mode
--   switch of libs/integrations/factory.py.
-- - Sandbox: sandbox/scenarios/loader.py (Scenario), and the account aggregator, consent and OCEN
--   clients of sandbox/clients (Clients), as instances of the client interfaces; the clients for GST
--   (Gst, with the activity `validate_gst`), for a lender (Lender) and for data subjects (Dsr).
-- - Orchestrator: services/la_orchestrator. Types has the inputs and results, Workflow the run of
--   `LoanOriginationWorkflow` in workflows.py, Activities the functions `evaluate_decision`,
--   `check_dpdp_consent`, `fetch_aa_data` and `submit_to_lender` of activities.py over clients that
--   each call makes anew. Workflow/Gates, Workflow/Hold and Workflow/Lender are about the run;
--   Activities/Origination puts the activity that evaluates a decision and the run together.
-- - Db: the tables of libs/db/models.py with the queries on them, `PlatformDataSource` of
--   libs/db/data_source.py (DataSource) and the handlers of libs/db/retention_handlers.py
--   (Retention). Erasure, Reregistered and Retained are about these.
-- - Compliance: Rights has `submit_dsr` and `get_dsr_status` of services/borrower_gateway/dpdp_api.py
--   and `DSRFulfillmentWorkflow`, Consent its `get_consent_status`, and Status is about the first two;
--   Retention has `enforce_retention`; Breach has `detect_breaches` and `BreachDetectionWorkflow`,
--   with the sliding window (Breach/Window) and the loop (Breach/Consumer) of
--   services/breach_consumer/consumer.py.
-- - Gateway: services/borrower_gateway/service.py, the in-memory service (Memory) and the one over
--   the table `loan_applications` (Table), with the types of models.py (Types). Idempotency,
--   Backends and Progress are about these. Callback has `apply_for_loan` and `create_loan_response` of app.py,
--   Endpoints its other endpoints.
-- - Ops: ops_api.py and ops_models.py of the same service, by Commands (hold, release, flag,
--   escalate), Onboarding (vendors and anchors), Applications (the reads) and Endpoints (the routes).
--   Authorization is about the API key, Holds about the workflow that a hold reaches, Forwarding
--   about the events on their way to Frappe.
-- - Ocen: the records of libs/ocen_client/models and auth/config.py; Token: auth/token_service.py;
--   Network: network_client.py over registry.py and heartbeat.py; Base64 and Signer: jws/signer.py;
--   Activity: `submit_ocen_loan_request` of services/la_orchestrator/activities.py. Delivery is about
--   what a submission sends.
-- - Events: libs/common/events.py, with the factories and libs/common/event_producer.py (Producer) and
--   the loop of services/frappe_sync/consumer.py (Consumer).
-- - Trust: services/trust_graph/service.py; Log is about the counts behind the score, Bounds and Range
--   about its range. Ddp: services/ddp_engine/service.py. Both use Decimal, Python's decimals as an
--   interface with laws.
-- - Audit: the decision receipts of libs/audit/receipts.py; Audit/Chain is about their hash chain.
-- - Access: `DPDPRBACMiddleware` of libs/common/middleware.py, and Correlation:
--   `CorrelationIdMiddleware`. Limit: libs/common/rate_limit.py.
-- - Wedge: services/vdp_wedge/service.py, which evaluates an invoice by the rules engine.
-- - Webhook: services/frappe_sync/webhook_client.py.
-- - Migration: migrations/versions/003_backfill_encrypted_columns.py, with its two directions in
--   Upgrade; Batches and Backfilled compare the batches with one pass, Encrypted says what a row gets.
-- - Prelude and its children: tests on numbers and texts, lists, dicts, and results with exceptions.
-- - Tests: concrete inputs.
--
-- How the model is made. A handler is a function from the state before to a result and the state
-- after; an exception is an `err` with its kind. The workflow's run is a chain of stages; each goes
-- on, ends the run or raises. What Temporal does is the `World`: the outcome of every activity after
-- its retries, the signals that arrive during each activity, and those of each activation during a
-- wait, whose condition is checked after all the signals of an activation; a timeout when the
-- activations run out. A time and a uuid are numbers, the current time and a fresh uuid arguments. A
-- dict is an association list, a table a list of rows; the database is modelled by what the code
-- relies on (a query keeps the rows that fit, a commit checks unique columns and rolls back, and the
-- gateway's writes are bounded by the widths of the columns). SHA-256 and the
-- `zen` package are arguments, about which nothing is assumed but what a theorem says. The batches of
-- the migration are on fuel, one unit for each; a number above the rows of the table is enough, since
-- each batch but the last has a row. Every other loop goes through a list.
--
-- HTTP, Kafka, Temporal's client, RSA, base64, JSON and decimals are arguments too, with what the
-- code relies on as named laws; the HTTP requests of the OCEN client and the effects of the
-- operations' endpoints are lists in the order in which they happen.
--
-- Not modelled: logging and tracing, Kafka and HTTP themselves, loading and generating keys in
-- libs/ocen_client/jws/signer.py, the set-up of the services and of the database engine, the domain
-- records of libs/common/models.py that no code uses, the style sheets of brand, and the scripts and
-- the migrations that only change the schema. The live clients do not exist in the repository, and
-- the consent ledger and the role checks of the package dpdp_core are not part of it.
pub mod Migration
pub mod Prelude
pub mod Rules
pub mod Integrations
pub mod Sandbox
pub mod Db
pub mod Access
pub mod Correlation
pub mod Audit
pub mod Compliance
pub mod Gateway
pub mod Limit
pub mod Orchestrator
pub mod Tests
pub mod Webhook
pub mod Wedge
pub mod Decimal
pub mod Events
pub mod Ops
pub mod Ddp
pub mod Ocen
pub mod Trust
