-- ===== src/Lib.antt =====
-- NexusRAG, the Python service of nexusrag/: models of its services and what holds of them.
--
-- The service answers questions over the documents of many tenants. A request passes the rate limit,
-- the write gate of the region and the authorization policies; calls of other systems run under a
-- circuit breaker, a retry and a bulkhead; operations are announced by notification jobs, and the
-- number of replicas follows autoscaling profiles. Each part keeps its rows in the database or in
-- Redis. A model here is one record for the rows that a part keeps, and one function for each of its
-- operations, from the state to the next one and an answer. What a call meets outside (the time, the
-- verdict of a probe, a random number, an exception of a delivery) is an argument. Raised exceptions
-- are values.
--
-- - Prelude: the names shared by all, tests on numbers, lists and integers; Prelude/Tables has tables
--   of rows with a key, Prelude/Sorting the stable sort of a query.
-- - Resilience: nexusrag/services/resilience.py. Resilience/Breaker models CircuitBreaker, with its
--   local state, its hash in Redis and the aliasing between the two; Breaker/Machine is the abstract
--   machine it implements between two expiries of the hash, which may come at any time.
--   Resilience/Retry models retry_async, Resilience/Bulkhead the class Bulkhead and its leases. A
--   retry recurs on the number of attempts that are left, max(max_attempts, 1) at first, which is
--   enough: attempt_from is shown to return.
-- - Failover: nexusrag/services/failover.py and its rows in nexusrag/domain/models.py.
--   Failover/Machine is _state_transition_allowed, Region the rows of the cluster and of the regions
--   with evaluate_readiness, Gate enforce_write_gate and set_write_freeze, Token the approval tokens,
--   Attempt the inner attempt of promote_region with its handler, Promote the replay, the lock and the
--   rest of it, Rollback rollback_failover. SHA-256 is an argument.
-- - Authz: nexusrag/services/authz/evaluator.py and abac.py. Authz.antt has the JSON values of
--   conditions, Compare their comparison in Python, Operators and Evaluate the evaluator, Validate
--   validate_condition and its depth, Policies evaluate_policy_set, Acl the document permissions,
--   Acl/Context build_document_context, Acl/Authorize authorize_document_action and
--   filter_documents_for_principal. The parsing of times and dates is an argument. The evaluator
--   recurs on the condition, so it needs no fuel.
-- - RateLimit: nexusrag/apps/api/rate_limit.py. RateLimit/Route is route_class_for_path,
--   RateLimit/Bucket the script of the token buckets that Redis runs and RateLimiter.check, with the
--   tokens in parts. Bucket/Accuracy says how far the doubles of the script may be off; Redis drops a
--   bucket after its time to live, by the clock of the caller.
-- - Sla: nexusrag/services/sla/autoscaling.py: _recommend, evaluate_autoscaling, apply_autoscaling.
-- - Operability: nexusrag/services/operability/notifications.py. Notifications/Backoff has the delay
--   of a retry and the dedupe window, Delivery the claim and the processing of a job, Queue the
--   creation of jobs, the requeue of due ones and the retry by an operator. A digest is an argument.
-- - Quota: nexusrag/services/quota.py: check_and_consume_quota over the counters and the soft-cap
--   rows of one tenant. The start of a day and of a month come with the request.
-- - Governance: nexusrag/services/governance.py and policy_engine.py with their rows in
--   nexusrag/domain/models.py. Governance.antt has the legal holds, Governance/Retention
--   run_retention_for_tenant with a sweep for each category, PolicyEngine evaluate_policy over rules
--   with JSON conditions and actions, Dsar the destructive actions and submit_dsar_request with
--   enforce_policy. The foreign keys to documents are modelled, so a deletion can fail. The directory
--   of backups is a list of manifests; the export is an argument.
-- - Ingestion: nexusrag/ingestion/chunking.py and _validate_chunk_params of
--   nexusrag/services/ingest/ingestion.py. A text is the list of its characters. The loop of
--   _window_text has the length of the text as its fuel, which is shown to be enough for every
--   overlap that is smaller than the size.
-- - Idempotency: nexusrag/services/idempotency.py and prune_idempotency of
--   nexusrag/services/maintenance.py, over the records with their unique index.
-- - Operability/Incidents: nexusrag/services/operability/incidents.py: the rows of the incidents, their
--   timeline and the notifications that are sent.
-- - Routing: nexusrag/services/notifications/routing.py. Trimming, lower case and
--   the decoded URLs of the settings are arguments. Routing/Receiver is receiver_contract.py, where
--   hashes and the parsing of numbers and times are arguments.
-- - Costs: nexusrag/services/costs/budget_guardrails.py, sum_costs of aggregation.py and
--   select_pricing_rate of pricing.py. Amounts are counts of one small unit, the warning's ratio is in
--   ten-thousandths.
-- - Entitlements: nexusrag/services/entitlements.py with its rows in nexusrag/domain/models.py.
--   Entitlements.antt has the plan in effect, the features, the cache and the checks of a feature,
--   Entitlements/Rollouts the kill switches and canary percentages of rollouts.py.
--
-- Numbers: counts and times are natural numbers, each model says in which unit; Python's are
-- unbounded, so nothing wraps. Where the code subtracts below 0, the model says what replaces it.
-- Floats are exact fractions, but for the token buckets, whose
-- doubles are an argument.
--
-- Not modelled: reporting queries, audit metadata, metrics, HTTP parsing and wiring, the frontend and
-- the SDKs, database migrations, providers of models and vector stores, cryptography. The services for
-- sign-on, keys and backup, the alerts and operator actions, and the queue of the ingestion have no
-- model yet.
pub mod Prelude
pub mod Resilience
pub mod Routing
pub mod Costs
pub mod Entitlements
pub mod Failover
pub mod Authz
pub mod RateLimit
pub mod Sla
pub mod Governance
pub mod Idempotency
pub mod Ingestion
pub mod Operability
pub mod Quota
