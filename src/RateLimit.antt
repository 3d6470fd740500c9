-- ===== src/RateLimit.antt =====
-- nexusrag/apps/api/rate_limit.py: the classes of routes, and the token buckets.
pub mod Route
pub mod Bucket
