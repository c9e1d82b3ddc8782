-- ===== src/Lib.antt =====
-- AegisSOC is a security operations platform of Python services around an event bus: alerts become
-- cases, a response policy recommends actions for them, a disruptive action waits for a person's
-- approval and is then carried out as a dry run, and every change is mirrored to a tamper-evident
-- audit log.
--
-- The files, and the code that they model:
--   * Common: texts, lists, dicts, JSON values, sorting, and floats as a parameter.
--   * Auth: packages/common/aegis_common/auth/rbac.py and jwt.py. The token library is a parameter,
--     the record Tokens.
--   * Approval: services/approval. Records are the tables (approval_core/models.py), Repository the
--     calls of approval_core/repository.py, Adapters the dry-run adapters of
--     approval_core/adapters.py, AuditClient the sinks of approval_core/audit_client.py, and Service
--     the endpoints of app/main.py. A repository call reads and writes a World, the tables and what
--     the sink was sent, and may raise. System is the state machine of all calls in any order;
--     Lifecycle is its invariant.
--   * Audit: services/audit. HashChain and Repository model audit_core/hashchain.py and
--     audit_core/repository.py; Chain and Tamper say what verification accepts. SHA-256 over the
--     sorted JSON text is the parameter Digest: nothing is assumed of it but that a digest is not the
--     empty text, and where two payloads with one digest would defeat a statement, it says so.
--   * Policy: services/response_policy/policy_core. Taxonomy, Objectives, Bandit and Recommend model
--     the files of those names and store.py; Bandit/Process is the bandit of the process with the
--     files that it is loaded from and saved to, and an exception is none with the state it leaves. Matrix inversion, square roots and the formatting of
--     texts are parameters.
--   * Messaging: packages/common/aegis_common/kafka/bus.py and idempotency.py.
--   * Ingestion: services/ingestion (ingestion_core/ingest.py, models.py, app/main.py) and
--     packages/common/aegis_common/kafka/producer.py. SHA-256 and Python's texts of a timestamp and of
--     a dict's items are parameters.
--   * Triage: services/llm_triage/triage_core/validation.py. The regular expressions that split a text
--     and find citations are parameters.
--   * Gateway: services/frontend_gateway/gateway_core/rate_limit.py.
--   * Schema: packages/common/aegis_common/schema/events.py.
--   * Graph: packages/common/aegis_common/graphstore/memory.py (Store, Queries, Statistics, with the
--     two breadth-first searches in Search) and services/graph_builder (Builder).
--   * Detection: services/detection/detection_core. Correlation, Dedup, Sigma, Temporal,
--     GraphFeatures and Pipeline model the files of those names; Ensemble models ensemble.py,
--     ml_scorer.py and heuristics.py. Methods on texts beyond equality, eval and the model's getattr
--     are parameters.
--   * Case: services/case_management. Records are the tables (case_core/models.py), Repository and
--     Merge the calls of case_core/repository.py, and Service the endpoints of app/main.py; Invariant
--     is what they keep. The database's ilike is a parameter.
-- Each but Common has a module Tests, which runs the theorems at concrete inputs.
--
-- The parts meet in these places: the approval endpoints take their user from Auth; every repository
-- call of Approval sends its event to the sink, whose other end is the audit service; and a
-- recommendation of Policy is what an approval request is made of. Ingestion marks an event's id in the
-- store of Messaging before it sends; Builder and Pipeline take the same canonical event, and the
-- pipeline reads the graph that the builder writes.
--
-- Times are numbers, of microseconds or seconds as the file says, and each call takes the reading of
-- the clock and its fresh identifiers as arguments. A table is a list of rows in order of insertion,
-- or a dict by its primary key. Floats are a record of operations of which nothing is assumed except
-- where a theorem names an order. The searches of the graph take fuel for two nodes of every edge and
-- the source, which is enough since a node is queued once; every other loop of the code runs over a
-- list.
--
-- Not modelled: replay, normalization, enrichment, the Neo4j backend, the rest of triage, the dashboard with the
-- gateway's reads and the scripts, which are components of their own, and the HTTP, database and
-- broker libraries. A database transaction is all or nothing; concurrent
-- requests are sequences of calls.
pub mod Common
pub mod Schema
pub mod Auth
pub mod Approval
pub mod Audit
pub mod Policy
pub mod Messaging
pub mod Gateway
pub mod Case
pub mod Detection
pub mod Graph
pub mod Ingestion
pub mod Triage
