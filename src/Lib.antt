-- ===== src/Lib.antt =====
-- A model of the parts of CloudSentinel-AI that decide what is done to cloud resources and what
-- is spent on language models, and of the job queue that carries the work.
--
-- Files and code (paths from the root of the repository):
-- - Base and its children: Booleans, lists, dictionaries, integers, stable sorting, texts.
--   `Instant` counts microseconds; `seconds`, `hours` and `days` convert to it.
-- - Costs: `CostRecord` of app/models/cloud.py, and the queries `count_records` and `get_summary` of
--   app/modules/reporting/domain/aggregator.py.
-- - Remediation: the data of app/models/remediation.py and remediation_settings.py, and the state.
--   A method is a function of the `World` (the table of requests, and the log of what was done to
--   the outside) into a result and a `World`; `do` chains methods and an exception keeps what was
--   done before it. Each reading of the clock, the settings and the answers of AWS are an `Env`.
--   + Guards: `SafetyGuardrailService` of app/shared/core/safety_service.py.
--   + Actions: `_create_*_backup` and `_execute_action` of `RemediationService`,
--     app/modules/optimization/domain/remediation.py.
--   + Execute: its `execute`, cut at its commits; Stages, Cases and Store have the lemmas on one
--     stage, on all ways through it, and on the table, for Safety, Backup and Grace.
--   + Service: `create_request`, `list_pending`, `approve`, `reject` and `enforce_hard_limit`;
--     History, Review and Isolation are about any sequence of them, Listing about the pages.
-- - Attribution: `AttributionEngine` of app/modules/reporting/domain/attribution_engine.py with
--   app/models/attribution.py; Totals, Matching and Batch are about what its rules allocate.
-- - Dunning: `DunningService` of app/modules/reporting/domain/billing/dunning_service.py; History and
--   Recovery follow subscriptions through failed payments.
-- - Jobs: `JobProcessor` and `enqueue_job` of app/modules/governance/domain/jobs/processor.py, with
--   app/models/background_job.py. The handler of a job is given by the way that it ends.
-- - Scheduler: the sweeps of app/tasks/scheduler_tasks.py, `detect_stuck_jobs` of orchestrator.py and
--   cohorts.py in app/modules/governance/domain/scheduler; Calendar has the week of an instant, Keys,
--   Sweeps and Stuck are about the jobs that the sweeps insert and that the detector gives up.
-- - Erasure: `request_data_erasure` of app/modules/governance/api/v1/audit.py with the foreign keys of
--   app/models. Order: what its deletions come to; Blocked: who can never be erased.
-- - Events: the payment events; Paystack: `WebhookHandler` of
--   app/modules/reporting/domain/billing/paystack_billing.py. Delivery and Charges are about what a
--   handler leaves alone and about a charge that is reported twice.
-- - Billing: `BillingService` of the same file, with the payment provider as a parameter. Unpaid is
--   about what is paid for a tier and when.
-- - Currency: `ExchangeRateService` of app/modules/reporting/domain/billing/currency.py, which
--   Billing converts its prices by; Rates is about the cache and the rounding.
-- - Connections: the tables of app/models/aws_connection.py, azure_connection.py, gcp_connection.py and
--   discovered_account.py. Services: app/shared/connections; Routes: the endpoints of
--   app/modules/governance/api/v1/settings/connections.py and `requires_role` of
--   app/shared/core/auth.py; Calls: any sequence of them. Edits says what a call does to a table, for
--   Unique and Isolation; Gates and Discovery are about the plans and the discovered accounts.
-- - CostCache: app/shared/adapters/cost_cache.py without its Redis backend. Memory compares the backend
--   in memory with a table of values; Keys and Invalidation are about what the keys tell apart.
-- - Webhooks: `WebhookRetryService` of app/modules/reporting/domain/billing/webhook_retry.py and the
--   webhook endpoint of app/modules/reporting/api/v1/billing.py. Unique, Retries, Endpoint and Twice
--   follow a webhook from its request to its second handling.
-- - Persistence: `CostPersistenceService` of app/modules/reporting/domain/persistence.py, on
--   PostgreSQL; Batches, Upserts and Cleanup are about its loops.
-- - Tiers: the tiers and gates of app/shared/core/pricing.py; Upgrades compares the paid tiers.
-- - RateLimiter: app/shared/adapters/rate_limiter.py; Buckets and Backoff.
-- - AuditLog: `_mask_sensitive` of app/modules/governance/domain/security/audit_log.py; Entries: `log`
--   of the same file and `get_audit_log_detail` of app/modules/governance/api/v1/audit.py. Masked and
--   Stored are about what is masked and what is given out.
-- - LlmBudget: `LLMBudgetManager` of app/shared/llm/budget_manager.py with app/models/llm.py, and
--   in Pricing the table of app/shared/llm/pricing_data.py. Amounts of money are whole numbers of
--   the smallest unit that the file names. Reserve, Check and Alerts are about its methods.
-- - Analyzer: `FinOpsAnalyzer` of app/shared/llm/analyzer.py, the choice of provider and model. Invoke:
--   the retries and fallbacks, with the clients in the order of their calls; Run: `analyze`. What the
--   clients answer is a parameter. Models, Calls, Authorised and Charges are about what is chosen,
--   called, allowed and recorded.
-- - LlmBreaker: `LLMCircuitBreaker` of app/shared/llm/circuit_breaker.py.
-- - CloudBreaker: `CircuitBreaker` of app/shared/remediation/circuit_breaker.py.
-- The modules called Samples evaluate the models on concrete inputs.
--
-- How the parts interact: `execute` runs the guards, which read the costs and the table of
-- requests, and schedules itself by a job; `enforce_hard_limit` asks the LLM budget of the tenant
-- and then runs `execute`; a failed payment schedules its retry by a job. The attribution and the
-- persistence work on the records of Costs. A webhook is stored as a job and handled by Paystack,
-- which hands failed invoices to Dunning; the workers of Jobs run the job again, and the scheduler's
-- detector gives up jobs that wait for long. The analyzer asks LlmBudget before its calls and records
-- their cost there. The reading of audit entries and the erasure take the roles of Connections.
--
-- Tables are lists, and one method runs at a time, as the row locks of the code have it; where the
-- code takes no lock that matters the interleaving is written out as a sequence of calls. Two loops
-- take fuel: the batches of `save_summary`, with as much as there are records, and the cleanup of old
-- records, for which more than there are rows is enough. Every other loop is over a list or over its
-- retries. Identifiers and texts that are only compared are numbers.
-- What the code does not contain is a parameter: the start of a month, the answers of AWS and of the
-- payment provider, the answers of the language models, the way a handler ends, hashes and signatures,
-- the printing and parsing of JSON, dates and identifiers. The database is taken to accept every
-- commit; Erasure has the foreign keys that it meets.
--
-- Not modelled: most of the web API, authentication, the cloud SDK adapters and the detection plugins,
-- the prompts for the language models and the parsing of their answers, notifications, the dashboard, logging and metrics.
pub mod Analyzer
pub mod Attribution
pub mod AuditLog
pub mod Base
pub mod Billing
pub mod CloudBreaker
pub mod Connections
pub mod CostCache
pub mod Costs
pub mod Currency
pub mod Dunning
pub mod Erasure
pub mod Events
pub mod Jobs
pub mod LlmBreaker
pub mod LlmBudget
pub mod Paystack
pub mod Persistence
pub mod RateLimiter
pub mod Remediation
pub mod Scheduler
pub mod Tiers
pub mod Webhooks
