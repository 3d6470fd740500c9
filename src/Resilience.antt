-- ===== src/Resilience.antt =====
-- nexusrag/services/resilience.py: the circuit breaker, the retry loop, the bulkhead and the canary
-- assignment that guard calls of external services.
pub mod Breaker
pub mod Retry
pub mod Bulkhead
