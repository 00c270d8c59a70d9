-- ===== src/Lib.antt =====
-- OpenCivic, an open-data platform: a model of its backend (backend/app) and what holds of it.
--
-- A publisher ingests a dataset, a steward reviews it and an approver signs it off; the catalogue
-- shows what is published, and users and machines reach it through a gateway. Every path below is
-- from the root of the repository. A service method is a function of the same name, from the
-- arguments and the state before to the result and the state after.
--
-- The parts, and the files that model them:
-- - Common: what the parts share. Common/Table.antt is a database table, with the queries and
--   updates that the repositories make; Common/Cache.antt is backend/app/core/cache.py, a
--   keyspace whose entries expire; Common/Order.antt is `ORDER BY`; Common/Text.antt is what the
--   services use of Python's `str`.
-- - Catalog: backend/app/db/models/tenant.py (`Dataset`); Catalog/Quality.antt is
--   backend/app/services/analytics/quality_scoring_service.py, and Catalog/Repository.antt is
--   backend/app/repositories/dataset_repository.py: queries, pages, and the nightly passes.
-- - Session: the rows that a tenant's session sees, the events and the queues
--   (backend/app/services/events/event_publisher.py,
--   backend/app/services/notifications/webhook_service.py), and the steps of a service, which
--   return or raise with the state written so far.
-- - Governance: backend/app/services/governance/workflow_service.py,
--   backend/app/repositories/workflow_repository.py and the embargo endpoint of
--   backend/app/api/v1/endpoints/datasets.py. Transitions.antt is the diagram, Service.antt the
--   steps of makers, checkers and approvers, Embargo.antt the scheduled publication, Queue.antt
--   the queues and the overdue submissions, Runs.antt every sequence of calls.
-- - Auth: Refresh.antt is backend/app/services/auth/refresh_service.py, RateLimit.antt
--   edge_rate_limit.py beside it, ApiKeys.antt backend/app/repositories/api_key_repository.py
--   with backend/app/services/auth/api_key_cache.py, Users.antt
--   backend/app/api/v1/dependencies/auth.py and permissions.py with
--   backend/app/services/auth/user_resolver.py and mfa_enforcement.py, Gateway.antt
--   backend/app/services/auth/gateway_auth.py, which asks all of these, and Scim.antt
--   backend/app/services/auth/scim_service.py, which suspends users across them;
--   SessionIndex.antt is keycloak_session_index.py beside it.
-- - Ingest: backend/app/services/ingest. Upload.antt is chunked_upload_service.py, Scanner.antt
--   virus_scanner.py, Inference.antt schema_inference.py, Drift.antt schema_drift_service.py, and
--   Pipeline.antt ingest_service.py, which asks the last three and writes the versions of
--   backend/app/repositories/dataset_version_repository.py (Versions.antt).
-- - Lineage: backend/app/repositories/lineage_repository.py and
--   backend/app/services/lineage/lineage_service.py, to which the ingest and the syncs write.
-- - Notifications: backend/app/services/notifications/in_app_service.py, in
--   Notifications/InApp.antt, and the deliveries of webhook_service.py beside it with
--   backend/app/repositories/webhook_repository.py, in Notifications/Webhook.antt.
-- - Connectors: backend/app/repositories/connector_repository.py and
--   backend/app/services/connectors/connector_sync_history.py; Connectors/Sync.antt is
--   connector_sync_service.py beside it, which runs the ingest.
-- - Workers: backend/app/workers/tenant_runner.py, a pass over the tenants, and the tasks of
--   backend/app/workers/tasks/tasks.py that run such a pass or an ingest.
-- - Usage: backend/app/repositories/usage_event_repository.py with its hourly roll-up
--   (Usage/Rollup.antt), and in Usage/Limits.antt
--   backend/app/services/analytics/rate_limit_service.py and
--   backend/app/services/platform/tenant_rate_limit_service.py, whose limits Auth/RateLimit.antt reads.
-- - Platform: backend/app/services/platform/tenant_provisioning_service.py and plan_seed_service.py
--   beside it, which register the tenants that the workers handle.
-- - Feedback: backend/app/repositories/feedback_repository.py and
--   backend/app/api/v1/endpoints/feedback.py.
--
-- How the code is read:
-- - Identifiers are natural numbers and instants are seconds; the clock, new keys and drawn
--   secrets are arguments. Subtraction of instants stops at 0.
-- - A tenant's tables and keyspaces stand for what its session sees; row-level security is not
--   modelled.
-- - SHA-256, AES-GCM, the validation of a JWT, the text form of UUIDs and the database's order of
--   texts are parameters; where a theorem relies on one, what it relies on is a hypothesis.
-- - Scores are in hundredths of a point: every exact score is a multiple of half a point.
-- - A loop over a list or a count is structural recursion. Two loops take fuel: the walk of the
--   lineage graph, one more than there are ends of edges, since a round without a new end is the
--   last; and the frames of the virus scan, the bytes of the file, since each frame takes one.
-- - An object's key is told apart by its parts; what pandas, pdfplumber, pyarrow, the scanner's
--   daemon and the drivers of connectors answer is an argument.
-- - A write session that raises gives back its rows; objects that were stored stay.
-- - A request's calls run one after another; two requests that interleave inside a call are not
--   modelled.
--
-- Not modelled: HTTP routing and middleware, the engine and migrations, search, AI services, the
-- drivers of connectors, the frontend, the charts, and the copy of the project under
-- opencivic-scaffold.
pub mod Common
pub mod Catalog
pub mod Session
pub mod Governance
pub mod Auth
pub mod Ingest
pub mod Notifications
pub mod Connectors
pub mod Lineage
pub mod Workers
pub mod Usage
pub mod Platform
pub mod Feedback
